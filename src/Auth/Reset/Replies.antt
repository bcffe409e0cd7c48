-- ===== src/Auth/Reset/Replies.antt =====
-- What the reply to a forgotten password tells.
use fyredocs_backend.Prelude.{
  ◌+◌, String, ◌≡◌, refl, ◌⊎◌, inl, inr, Bool-cases, ◌=ₛ◌, Option, none, some,
}
use fyredocs_backend.Store.{Result, ok, err, Fault}
use fyredocs_backend.Http.{success, failure}
use fyredocs_backend.Auth.Accounts.{User, normalize_email}
use fyredocs_backend.Auth.Rows.{
  PasswordResetToken, create_password_reset_token, delete_reset_tokens_for_user,
}
use fyredocs_backend.Auth.Backend.{World, Backend, Moment, on_resets}
use fyredocs_backend.Auth.Reset.{forgot_password, forgot_for, issue_reset, reset_created}

module _ {U S R Q : Type 0} (b : Backend U S R Q) (m : Moment) where
  -- A token cannot be made for a user: there is no randomness, or it cannot be stored.
  pub data CannotIssue (ip : String) (w : World U S R Q) (user : User) : Type 0 where
    no_token : (e : Fault) → m.reset_token ≡ err e → CannotIssue ip w user
    not_stored :
        (raw : String) (e : Fault)
        → m.reset_token ≡ ok raw
        → (b.resets.create
            (record {
              user_id = user.id;
              token_hash = b.hash_token raw;
              expires_at = m.now + b.reset_ttl;
              request_ip = ip;
            })
            (delete_reset_tokens_for_user b.resets user.id w.resets).1).0
          ≡ err e
        → CannotIssue ip w user

  created-reply :
      (user : User) (raw : String) (r : Result PasswordResetToken × World U S R Q)
      → ((reset_created b m user raw r).0 ≡ success 200 tt)
        ⊎ ((e : Fault) × (r.0 ≡ err e)
            × ((reset_created b m user raw r).0 ≡ failure 500 "SERVER_ERROR"))
  unfolding reset_created
  created-reply user raw (err e, w) = inr (e, refl, refl)
  created-reply user raw (ok row, w) = inl refl

  issue-reply :
      (ip : String) (user : User) (w : World U S R Q) (token : Result String)
      → m.reset_token ≡ token
      → let reply =
          (issue_reset b m ip user token
            (on_resets (delete_reset_tokens_for_user b.resets user.id) w).1).0 in
        (reply ≡ success 200 tt) ⊎ (CannotIssue ip w user × (reply ≡ failure 500 "SERVER_ERROR"))
  unfolding issue_reset create_password_reset_token
  issue-reply ip user w (err e) k = inr (no_token e k, refl)
  issue-reply ip user w (ok raw) k =
      elim (created-reply user raw (
        on_resets
          (create_password_reset_token b.resets b.hash_token m.now user.id raw b.reset_ttl ip)
          (on_resets (delete_reset_tokens_for_user b.resets user.id) w).1)) [
            | inl r ↦ inl r
            | inr (e, failed, r) ↦ inr (not_stored raw e k failed, r)
          ]

  lookup-reply :
      (raw ip : String) (w : World U S R Q) (found : Result User)
      → b.users.first (λ u. u.email =ₛ normalize_email raw) w.users ≡ found
      → ((forgot_for b m ip found w).0 ≡ success 200 tt)
        ⊎ ((user : User) × (found ≡ ok user)
            × CannotIssue ip w user
            × ((forgot_for b m ip found w).0 ≡ failure 500 "SERVER_ERROR"))
  unfolding forgot_for
  lookup-reply raw ip w (err e) k = inl refl
  lookup-reply raw ip w (ok user) k = elim (issue-reply ip user w m.reset_token refl) [
    | inl r ↦ inl r
    | inr (cannot, r) ↦ inr (user, refl, cannot, r)
  ]

  -- The reply to a forgotten password is the same 200 for every body, email and account, unless an
  -- account has the email and a reset token cannot be made or stored for it: then it is 500, which
  -- tells that there is an account.
  pub forgot_password-replies :
      (body : Option String) (ip : String) (w : World U S R Q)
      → ((forgot_password b m body ip w).0 ≡ success 200 tt)
        ⊎ ((raw : String) × (user : User) × (body ≡ some raw)
            × (b.users.first (λ u. u.email =ₛ normalize_email raw) w.users ≡ ok user)
            × CannotIssue ip w user
            × ((forgot_password b m body ip w).0 ≡ failure 500 "SERVER_ERROR"))
  unfolding forgot_password
  forgot_password-replies none ip w = inl refl
  forgot_password-replies (some raw) ip w = elim (Bool-cases (normalize_email raw =ₛ "")) [
    | inl e ↦ inl (rw (forgot_password, e) refl)
    | inr e ↦
        elim (lookup-reply raw ip w (b.users.first (λ u. u.email =ₛ normalize_email raw) w.users)
          refl) [
            | inl r ↦ inl (rw (forgot_password, e) r)
            | inr (user, found, cannot, r) ↦
                inr (raw, user, refl, found, cannot, rw (forgot_password, e) r)
          ]
  ]
