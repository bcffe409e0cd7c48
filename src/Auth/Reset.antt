-- ===== src/Auth/Reset.antt =====
-- Forgotten passwords (auth-service/handlers/password_reset.go). A body that does not bind is `none`.
pub mod Revokes
pub mod Effect
pub mod Replies
use Prim.Native.String.{len}
use fyredocs_backend.Prelude.{
  ◌-◌, String, ltb, ◌=ₛ◌, if◌then◌else◌, Option, none, some, List, [], ◌∷◌, ◌++◌,
}
use fyredocs_backend.Store.{Result, ok, err}
use fyredocs_backend.Http.{Reply, success, failure}
use fyredocs_backend.Text.Space.{trim_space}
use fyredocs_backend.Auth.Accounts.{User, normalize_email}
use fyredocs_backend.Auth.Rows.{
  UserSession, PasswordResetToken, create_password_reset_token, find_valid_reset_token_by_hash,
  delete_reset_tokens_for_user, revoke_all_user_sessions,
}
use fyredocs_backend.Auth.Backend.{
  World, Backend, Moment, on_users, on_sessions, on_resets, publish_event, delete_plan_cache,
  deny_token_hash,
}

pub record ResetPasswordRequest : Type 0 where
  pub token : String
  pub new_password : String

module _ {U S R Q : Type 0} (b : Backend U S R Q) (m : Moment) where
  -- The mail is sent in the background, and its failure only logged.
  unfoldable pub mail_link : User → String → World U S R Q → World U S R Q
  mail_link user raw w =
      if b.has_mailer
      then record w { mails = w.mails ++ record { to = user.email; token = raw } ∷ [] }
      else w

  unfoldable pub reset_created :
      User → String → Result PasswordResetToken × World U S R Q → Reply (Unit {0}) × World U S R Q
  reset_created user raw (err e, w) = (failure 500 "SERVER_ERROR", w)
  reset_created user raw (ok row, w) = (success 200 tt, mail_link user raw w)

  -- From the generation of the token on.
  unfoldable pub issue_reset :
      String → User → Result String → World U S R Q → Reply (Unit {0}) × World U S R Q
  issue_reset ip user (err e) w = (failure 500 "SERVER_ERROR", w)
  issue_reset ip user (ok raw) w = reset_created user raw (
      on_resets (create_password_reset_token b.resets b.hash_token m.now user.id raw b.reset_ttl ip)
        w)

  -- From the lookup of the user on. A failure to delete the older tokens is only logged.
  unfoldable pub forgot_for :
      String → Result User → World U S R Q → Reply (Unit {0}) × World U S R Q
  forgot_for ip (err e) w = (success 200 tt, w)
  forgot_for ip (ok user) w =
      issue_reset ip user m.reset_token
        (on_resets (delete_reset_tokens_for_user b.resets user.id) w).1

  -- The body's email and the client's address.
  unfoldable pub forgot_password :
      Option String → String → World U S R Q → Reply (Unit {0}) × World U S R Q
  forgot_password none ip w = (success 200 tt, w)
  forgot_password (some raw) ip w =
      let email = normalize_email raw in
      if email =ₛ ""
      then (success 200 tt, w)
      else forgot_for ip (b.users.first (λ u. u.email =ₛ email) w.users) w

  -- The statements of the transaction; the first that fails ends it.
  unfoldable pub resets_in_tx :
      String
      → Result (List PasswordResetToken) × World U S R Q
      → Result (List UserSession) × World U S R Q
  resets_in_tx uid (err e, w) = (err e, w)
  resets_in_tx uid (ok gone, w) = on_sessions (revoke_all_user_sessions b.sessions m.now uid) w

  unfoldable pub users_in_tx :
      String → Result (Unit {0}) × World U S R Q → Result (List UserSession) × World U S R Q
  users_in_tx uid (err e, w) = (err e, w)
  users_in_tx uid (ok _, w) =
      resets_in_tx uid (on_resets (delete_reset_tokens_for_user b.resets uid) w)

  unfoldable pub reset_tx :
      String → String → World U S R Q → Result (List UserSession) × World U S R Q
  reset_tx uid password_hash w = users_in_tx uid (
      on_users (b.users.update (λ u. u.id =ₛ uid) (λ u. record u { password_hash = password_hash }))
        w)

  -- `DB.Transaction`: what a failed body or COMMIT has done is rolled back.
  unfoldable pub transaction :
      {A : Type 0} → World U S R Q → Result A × World U S R Q → Result A × World U S R Q
  transaction before (err e, w) = (err e, before)
  transaction before (ok a, w) = elim b.commit [ err e ↦ (err e, before) | ok _ ↦ (ok a, w) ]

  -- The revoked sessions' access tokens that are still running.
  unfoldable pub deny_revoked : List UserSession → World U S R Q → World U S R Q
  deny_revoked [] w = w
  deny_revoked (s ∷ ss) w =
      let denied = deny_token_hash b s.access_token_hash (s.access_expires_at - m.now) w in
      deny_revoked ss (if ltb m.now s.access_expires_at then denied else w)

  -- After the transaction.
  unfoldable pub reset_done :
      String → Result (List UserSession) × World U S R Q → Reply (Unit {0}) × World U S R Q
  reset_done uid (err e, w) = (failure 500 "SERVER_ERROR", w)
  reset_done uid (ok revoked, w) = (
    success 200 tt,
    publish_event b "user.password_reset_completed" uid ""
        (delete_plan_cache b uid (deny_revoked revoked w)),
  )

  unfoldable pub reset_hashed :
      String → Result String → World U S R Q → Reply (Unit {0}) × World U S R Q
  reset_hashed uid (err e) w = (failure 500 "SERVER_ERROR", w)
  reset_hashed uid (ok password_hash) w =
      reset_done uid (transaction w (reset_tx uid password_hash w))

  unfoldable pub reset_found :
      String → Result PasswordResetToken → World U S R Q → Reply (Unit {0}) × World U S R Q
  reset_found password (err e) w = (failure 400 "INVALID_OR_EXPIRED_TOKEN", w)
  reset_found password (ok row) w = reset_hashed row.user_id (b.generate_hash password) w

  unfoldable pub reset_password :
      Option ResetPasswordRequest → World U S R Q → Reply (Unit {0}) × World U S R Q
  reset_password none w = (failure 400 "INVALID_INPUT", w)
  reset_password (some p) w =
      let token = trim_space p.token in
      if token =ₛ ""
      then (failure 400 "INVALID_INPUT", w)
      else if ltb (len p.new_password) 8
      then (failure 400 "WEAK_PASSWORD", w)
      else if ltb 128 (len p.new_password)
      then (failure 400 "INVALID_INPUT", w)
      else reset_found p.new_password
          (find_valid_reset_token_by_hash b.resets m.now (b.hash_token token) w.resets) w
