-- ===== src/Auth/Login/Authentic.antt =====
-- A login needs the account's password, and every refusal looks the same.
use Prim.Native.String.{len}
use fyredocs_backend.Prelude.{
  ◌≤◌, Bool, true, false, ◌||◌, ◌≡◌, refl, ◌⊎◌, inl, inr, Bool-cases, ◌=ₛ◌, ltb, some, arith,
}
use fyredocs_backend.Store.{Result, ok, err}
use fyredocs_backend.Text.Space.{trim_space}
use fyredocs_backend.Auth.Accounts.{User, AuthCredentials, normalize_email}
use fyredocs_backend.Auth.Backend.{World, Backend, Moment}
use fyredocs_backend.Auth.Grant.Replies.{Answered, respond-Answered}
use fyredocs_backend.Auth.Login.{login, check_password, welcome, invalid_credentials}

module _ {U S R Q : Type 0} (b : Backend U S R Q) (m : Moment) where
  -- The account that has the email of the request, and whose hash is that of its password.
  pub record Knows (p : AuthCredentials) (w : World U S R Q) (user : User) : Type 0 where
    pub account : b.users.first (λ u. u.email =ₛ normalize_email p.email) w.users ≡ ok user
    pub password : b.matches_hash user.password_hash p.password ≡ true
    pub shown : (trim_space p.password =ₛ "") ≡ false
    pub bounded : len p.password ≤ 128

  checked :
      (p : AuthCredentials) (w : World U S R Q) (r : Result User)
      → (check_password b m p.password r w ≡ (invalid_credentials, w))
        ⊎ ((user : User) × (r ≡ ok user)
            × (b.matches_hash user.password_hash p.password ≡ true)
            × (check_password b m p.password r w ≡ welcome b m "user.login" user w))
  unfolding check_password
  checked p w (err e) = inl refl
  checked p w (ok user) = elim (Bool-cases (b.matches_hash user.password_hash p.password)) [
    | inl e ↦ inr (user, refl, e, rw (e, check_password) refl)
    | inr e ↦ inl (rw (e, check_password) refl)
  ]

  -- A login whose body can be read is either refused with 401 INVALID_CREDENTIALS and no change, the
  -- same for an unknown email, a wrong password and a failed lookup, or it is that of an account
  -- that has the request's email and whose password hash matches the password given, which is not
  -- blank and at most 128 bytes long; it goes on as the welcome of that account, and is answered with
  -- tokens or 500 SERVER_ERROR.
  pub login-Authentic :
      (p : AuthCredentials) (w : World U S R Q)
      → (login b m (some p) w ≡ (invalid_credentials, w))
        ⊎ ((user : User) × Knows p w user
            × (login b m (some p) w ≡ welcome b m "user.login" user w)
            × Answered (login b m (some p) w).0)
  unfolding login welcome
  login-Authentic p w =
      elim (Bool-cases (normalize_email p.email =ₛ "" || trim_space p.password =ₛ "")) [
        | inl e ↦ inl (rw (e, login) refl)
        | inr e ↦ elim (Bool-cases (ltb 128 (len p.password))) [
          | inl l ↦ inl (rw (e, login, l) refl)
          | inr l ↦
              elim (checked p w (b.users.first (λ u. u.email =ₛ normalize_email p.email) w.users)) [
                | inl c ↦ inl (rw (e, login, l) c)
                | inr (user, account, password, c) ↦ inr (
                  user,
                  record {
                    account = account;
                    password = password;
                    shown = second _ _ e;
                    bounded = ground arith;
                  },
                  rw (e, login, l) c,
                  rw (e, login, l) (rw c (respond-Answered b m user _)),
                )
              ]
        ]
      ]
    where
      second : (x y : Bool) → (x || y) ≡ false → y ≡ false
      second x y h = ground arith
