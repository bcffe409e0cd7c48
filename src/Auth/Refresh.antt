-- ===== src/Auth/Refresh.antt =====
-- Renewing an access token (`Refresh` of auth-service/handlers/auth.go). A missing cookie is `none`.
pub mod Renewal
use fyredocs_backend.Prelude.{String, ◌=ₛ◌, if◌then◌else◌, Option, none, some, [], ◌∷◌}
use fyredocs_backend.Store.{Result, ok, err}
use fyredocs_backend.Http.{Reply, success, failure}
use fyredocs_backend.Text.Space.{trim_space}
use fyredocs_backend.Auth.Accounts.{
  User, SubscriptionPlan, build_user_response, token_role, free_plan,
}
use fyredocs_backend.Auth.Rows.{UserSession, find_session_by_refresh_hash}
use fyredocs_backend.Auth.Issuer.{Issued, issue_access_token, verify_refresh_token}
use fyredocs_backend.Auth.Cookies.{set_access_token_cookie}
use fyredocs_backend.Auth.Backend.{
  World, Backend, Moment, on_sessions, cache_plan_info, lookup_plan,
}
use fyredocs_backend.Auth.Grant.{Granted, plan_or}

abbrev pub invalid_refresh_token : Reply Granted
invalid_refresh_token = failure 401 "INVALID_REFRESH_TOKEN"

module _ {U S R Q : Type 0} (b : Backend U S R Q) (m : Moment) where
  -- The session with its new access token; the row is there, so that `Save` updates it. A failure
  -- is only logged.
  unfoldable pub save_session : UserSession → Issued → World U S R Q → World U S R Q
  save_session session access w =
      let renewed : UserSession = record session {
        access_token_hash = b.hash_token access.token;
        access_expires_at = access.expires_at;
      } in
      (on_sessions (b.sessions.update (λ s. s.id =ₛ session.id) (λ s. renewed)) w).1

  -- Lines 227 to 245.
  unfoldable pub renew :
      User
      → UserSession
      → SubscriptionPlan
      → Result Issued
      → World U S R Q
      → Reply Granted × World U S R Q
  renew user session plan (err e) w = (failure 500 "SERVER_ERROR", w)
  renew user session plan (ok access) w = (
    success 200 (record {
      user = build_user_response user (token_role user) plan;
      access_expires_at = access.expires_at;
      cookies = set_access_token_cookie b.env access.token b.access_ttl ∷ [];
    }),
    save_session session access w,
  )

  -- Lines 213 to 245.
  unfoldable pub renew_for : User → UserSession → World U S R Q → Reply Granted × World U S R Q
  renew_for user session w =
      let (found, w') = lookup_plan b m.now user.plan_name w in
      let plan = plan_or free_plan found in
      renew user session plan
        (issue_access_token b.issuer m.now m.access_jti user.id (token_role user) [] b.access_ttl)
        (cache_plan_info b user.id plan b.access_ttl w')

  -- Lines 192 to 245.
  unfoldable pub check_user :
      String → Result UserSession → World U S R Q → Reply Granted × World U S R Q
  check_user uid (err e) w = (invalid_refresh_token, w)
  check_user uid (ok session) w = elim (b.parse_uuid (trim_space uid)) [
    | none ↦ (invalid_refresh_token, w)
    | some id ↦ elim (b.users.first (λ u. u.id =ₛ id) w.users) [
      | err e ↦ (invalid_refresh_token, w)
      | ok user ↦ renew_for user session w
    ]
  ]

  unfoldable pub refresh : Option String → World U S R Q → Reply Granted × World U S R Q
  refresh none w = (invalid_refresh_token, w)
  refresh (some token) w =
      if trim_space token =ₛ ""
      then (invalid_refresh_token, w)
      else elim (verify_refresh_token b.issuer m.now token) [
        | none ↦ (invalid_refresh_token, w)
        | some uid ↦
            check_user uid
              (find_session_by_refresh_hash b.sessions m.now (b.hash_token token) w.sessions) w
      ]
