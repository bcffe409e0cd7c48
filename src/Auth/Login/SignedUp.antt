-- ===== src/Auth/Login/SignedUp.antt =====
-- Whoever has signed up can log in.
use Prim.Native.String.{len}
use fyredocs_backend.Prelude.{
  String, Bool, true, false, ◌||◌, ◌≡◌, refl, sym, ap, subst, ◌∙◌, inl, inr, Bool-cases, ◌=ₛ◌, ltb,
  some, arith, List, Elem, eq_iff,
}
use fyredocs_backend.Store.{Result, ok, err}
use fyredocs_backend.Store.Table.{TableLaws}
use fyredocs_backend.Http.{success, go, Flow-cases}
use fyredocs_backend.Text.Space.{trim_space}
use fyredocs_backend.Auth.Accounts.{User, AuthCredentials, normalize_email, is_duplicate_error}
use fyredocs_backend.Auth.Backend.{World, Backend, Moment, on_users, publish_event}
use fyredocs_backend.Auth.Backend.Tables.{publish_event-tables}
use fyredocs_backend.Auth.Grant.{Granted}
use fyredocs_backend.Auth.Grant.Opened.{respond-Opened}
use fyredocs_backend.Auth.Grant.Replies.{respond-succeeds}
use fyredocs_backend.Auth.Issuer.{Claims}
use fyredocs_backend.Auth.Login.{
  signup, login, check_signup, check_unknown, create_user, created, new_user, welcome,
  check_password,
}

module _ {U S R Q : Type 0} (b : Backend U S R Q) where
  -- A body that passes the checks can log in as far as its form goes.
  form_passes :
      (m m' : Moment) (p : AuthCredentials) (email : String) (w : World U S R Q)
      → check_signup b m p ≡ go email
      → (email ≡ normalize_email p.email)
        × (login b m' (some p) w
            ≡ check_password b m' p.password
                (b.users.first (λ u. u.email =ₛ normalize_email p.email) w.users)
                w)
  unfolding check_signup login
  form_passes m m' p email w h =
      elim (Bool-cases (
        normalize_email p.email =ₛ ""
        || trim_space p.password =ₛ ""
        || trim_space p.full_name =ₛ ""
        || trim_space p.country =ₛ "")) [
          | inl e ↦ let h' = rw (e, check_signup) at h in cc
          | inr e ↦ elim (Bool-cases (ltb (len p.password) 8)) [
            | inl l ↦ let h' = rw (e, check_signup, l) at h in cc
            | inr l ↦ elim (Bool-cases (ltb 128 (len p.password))) [
              | inl g ↦ let h' = rw (e, check_signup, l, g) at h in cc
              | inr g ↦
                  let h' = rw (e, check_signup, l, g) at h in
                  let f : (normalize_email p.email =ₛ "" || trim_space p.password =ₛ "") ≡ false =
                    first_two (normalize_email p.email =ₛ "") (trim_space p.password =ₛ "")
                      (trim_space p.full_name =ₛ "") (trim_space p.country =ₛ "") e in
                  (cc, rw (f, login, g) refl)
            ]
          ]
        ]
    where
      first_two : (x y z v : Bool) → (((x || y) || z) || v) ≡ false → (x || y) ≡ false
      first_two x y z v k = ground arith

  created-stored :
      (m : Moment) (r : Result User × World U S R Q) (g : Granted)
      → (created b m r).0 ≡ success 200 g
      → (user : User) × (r.0 ≡ ok user) × ((created b m r).1.users ≡ r.1.users)
  unfolding created welcome
  created-stored m (err e, w) g h = elim (Bool-cases (is_duplicate_error e)) [
    | inl d ↦ let h' = rw (created, d) at h in cc
    | inr d ↦ let h' = rw (created, d) at h in cc
  ]
  created-stored m (ok user, w) g h =
      let o =
        respond-Opened b m user (publish_event b "user.signup" user.id user.plan_name w) g h in
      (user, refl, o.users ∙ ap (λ (t : U × S × R). t.0) (publish_event-tables b _ _ _ w))

  create_user-stored :
      (m : Moment) (p : AuthCredentials) (email : String) (hashed : Result String)
      (w : World U S R Q) (g : Granted)
      → (create_user b m p email hashed w).0 ≡ success 200 g
      → (hash : String) × (user : User) × (hashed ≡ ok hash)
        × ((b.users.create (new_user b m p email hash) w.users).0 ≡ ok user)
        × ((create_user b m p email hashed w).1.users
            ≡ (b.users.create (new_user b m p email hash) w.users).1)
  unfolding create_user
  create_user-stored m p email (err e) w g h = cc
  create_user-stored m p email (ok hash) w g h =
      let (user, e, users) =
        created-stored m (on_users (b.users.create (new_user b m p email hash)) w) g h in
      (hash, user, refl, e, users)

  signup-stored :
      (m : Moment) (p : AuthCredentials) (w : World U S R Q) (g : Granted)
      → (signup b m (some p) w).0 ≡ success 200 g
      → (email : String) × (hash : String) × (user : User) × (check_signup b m p ≡ go email)
        × (b.generate_hash p.password ≡ ok hash)
        × ((b.users.create (new_user b m p email hash) w.users).0 ≡ ok user)
        × ((signup b m (some p) w).1.users ≡ (b.users.create (new_user b m p email hash) w.users).1)
  unfolding signup
  signup-stored m p w g h = elim (Flow-cases (check_signup b m p)) [
    | inl ((status, code), e) ↦ let h' = rw (signup, e) at h in cc
    | inr (email, e) ↦
        elim (Flow-cases (check_unknown b m (b.users.first (λ u. u.email =ₛ email) w.users))) [
          | inl ((status, code), k) ↦ let h' = rw (signup, e, k) at h in cc
          | inr (_, k) ↦
              let (hash, user, hashed, stored, users) =
                create_user-stored m p email (b.generate_hash p.password) w g
                  (rw (signup, e, k) at h) in
              (email, hash, user, e, hashed, stored, rw (signup, e, k) users)
        ]
  ]

  module _ (rows_u : U → List User) (laws_u : TableLaws b.users rows_u)
      (fills : (r r' : User) (s : U)
        → (b.users.create r s).0 ≡ ok r'
        → (r'.email ≡ r.email) × (r'.password_hash ≡ r.password_hash))
      (finds : (p : User → Bool) (r : User) (s : U)
        → Elem r (rows_u s)
        → p r ≡ true
        → (r' : User) × (b.users.first p s ≡ ok r'))
      (bcrypt : (password hash : String)
        → b.generate_hash password ≡ ok hash
        → b.matches_hash hash password ≡ true) where
    -- After a sign-up that has succeeded, a login with the same body is granted tokens for the account
    -- that was made: that has the sign-up's normalised email. An insertion keeps the email and the
    -- hash, no other account has that email, an account that is there is found, bcrypt's hashes match
    -- the passwords that they were made from, and at the login tokens are signed and the new token's
    -- id is parsed.
    pub signup-login :
        (m m' : Moment) (p : AuthCredentials) (w : World U S R Q) (g : Granted)
        → (signup b m (some p) w).0 ≡ success 200 g
        → ((u v : User)
            → Elem u (rows_u (signup b m (some p) w).1.users)
            → Elem v (rows_u (signup b m (some p) w).1.users)
            → u.email ≡ v.email
            → u ≡ v)
        → ((c : Claims) → (t : String) × (b.issuer.sign c ≡ ok t))
        → (sid : String) → b.parse_uuid m'.access_jti ≡ some sid
        → let w' = (signup b m (some p) w).1 in
          (user : User) × (user.email ≡ normalize_email p.email)
          × (login b m' (some p) w' ≡ welcome b m' "user.login" user w')
          × (g' : Granted) × ((login b m' (some p) w').0 ≡ success 200 g')
    unfolding check_password new_user welcome
    signup-login m m' p w g h unique signs sid parses =
        let (email, hash, user, e, hashed, stored, users) = signup-stored m p w g h in
        let w' = (signup b m (some p) w).1 in
        let (normal, to_password) = form_passes m m' p email w' e in
        let (kept_email, kept_hash) = fills _ user w.users stored in
        let rows = ap rows_u users ∙ laws_u.create_ok _ user w.users stored in
        let there : Elem user (rows_u w'.users) = subst (Elem user) (sym rows) (inl refl) in
        let named : user.email ≡ normalize_email p.email = kept_email ∙ normal in
        let (found, f) =
          finds (λ u. u.email =ₛ normalize_email p.email) user w'.users there
            ((eq_iff _ _).1 named) in
        let (fits, at) = laws_u.first_ok _ w'.users found f in
        let same : found ≡ user = unique found user at there ((eq_iff _ _).0 fits ∙ sym named) in
        let f' = f ∙ ap ok same in
        let matches : b.matches_hash user.password_hash p.password ≡ true =
          ap (λ x. b.matches_hash x p.password) kept_hash ∙ bcrypt p.password hash hashed in
        let goes : login b m' (some p) w' ≡ welcome b m' "user.login" user w' =
          to_password ∙ (ap (λ r. check_password b m' p.password r w') f' ∙ rw matches refl) in
        let (g', granted) = respond-succeeds b m' signs sid parses user _ in
        (user, named, goes, g', ap (λ t. t.0) goes ∙ granted)
