-- ===== src/Auth/Proxy.antt =====
-- Impersonation by admins (auth-service/handlers/proxy_login.go). The caller's id and role are those
-- of the verified token; a body that does not bind is `none`.
pub mod Impersonates
use fyredocs_backend.Prelude.{
  ℕ, String, Bool, true, ◌||◌, ◌=ₛ◌, if◌then◌else◌, Option, none, some, [], ◌∷◌,
}
use fyredocs_backend.Config.{get_env_bool}
use fyredocs_backend.Store.{Result, ok, err, not_found, broken}
use fyredocs_backend.Http.{Reply, success, failure, Flow, go, reply}
use fyredocs_backend.Text.Space.{trim_space}
use fyredocs_backend.Auth.Accounts.{
  User, SubscriptionPlan, build_user_response, token_role, free_plan,
}
use fyredocs_backend.Auth.Rows.{store_access_only_session}
use fyredocs_backend.Auth.Issuer.{Issued, issue_impersonation_token}
use fyredocs_backend.Auth.Cookies.{set_access_token_cookie}
use fyredocs_backend.Auth.Backend.{
  World, Backend, Moment, on_sessions, cache_plan_info, publish_event,
}
use fyredocs_backend.Auth.Grant.{Granted}

unfoldable pub may_impersonate : String → Bool
may_impersonate role = let r = trim_space role in r =ₛ "admin" || r =ₛ "super-admin"

unfoldable pub plan_found : Result SubscriptionPlan → SubscriptionPlan
plan_found (err e) = free_plan
plan_found (ok plan) = plan

-- `ttl` is PROXY_LOGIN_TTL in seconds.
module _ {U S R Q : Type 0} (b : Backend U S R Q) (m : Moment) (ttl : ℕ) where
  -- The guards, up to the target's row.
  unfoldable pub find_target :
      String → String → Option String → World U S R Q → Flow (ℕ × String) User
  find_target uid role body w =
      if get_env_bool b.env "PROXY_LOGIN_ENABLED" true
      then if trim_space uid =ₛ ""
        then reply (401, "UNAUTHORIZED")
        else if may_impersonate role
        then elim body [
          | none ↦ reply (400, "INVALID_INPUT")
          | some raw ↦ elim (b.parse_uuid (trim_space raw)) [
            | none ↦ reply (400, "INVALID_INPUT")
            | some id ↦
                if id =ₛ trim_space uid
                then reply (400, "INVALID_TARGET")
                else elim (b.users.first (λ u. u.id =ₛ id) w.users) [
                  | err not_found ↦ reply (404, "USER_NOT_FOUND")
                  | err (broken e) ↦ reply (500, "SERVER_ERROR")
                  | ok target ↦ go target
                ]
          ]
        ]
        else reply (403, "FORBIDDEN")
      else reply (403, "PROXY_LOGIN_DISABLED")

  -- Lines 118 to 140. A session that cannot be stored is only logged.
  unfoldable pub open_impersonation :
      User
      → SubscriptionPlan
      → Issued
      → Option String
      → World U S R Q
      → Reply Granted × World U S R Q
  open_impersonation target plan access none w = (failure 500 "SERVER_ERROR", w)
  open_impersonation target plan access (some sid) w =
      let w' =
        (on_sessions
          (store_access_only_session b.sessions b.hash_token sid target.id access.token
            access.expires_at)
          w).1 in
      (
        success 200 (record {
          user = build_user_response target (token_role target) plan;
          access_expires_at = access.expires_at;
          cookies = set_access_token_cookie b.env access.token ttl ∷ [];
        }),
        publish_event b "user.proxy_login" target.id "" w',
      )

  -- Lines 111 to 140.
  unfoldable pub with_impersonation :
      User → SubscriptionPlan → Result Issued → World U S R Q → Reply Granted × World U S R Q
  with_impersonation target plan (err e) w = (failure 500 "SERVER_ERROR", w)
  with_impersonation target plan (ok access) w =
      open_impersonation target plan access (b.parse_uuid access.jti) w

  unfoldable pub respond_with_impersonation_token :
      User → String → World U S R Q → Reply Granted × World U S R Q
  respond_with_impersonation_token target admin w =
      let plan = plan_found (b.first_plan target.plan_name) in
      with_impersonation target plan
        (issue_impersonation_token b.issuer m.now m.access_jti target.id (token_role target) []
          admin ttl)
        (cache_plan_info b target.id plan ttl w)

  unfoldable pub proxy_login :
      String → String → Option String → World U S R Q → Reply Granted × World U S R Q
  proxy_login uid role body w = elim (find_target uid role body w) [
    | reply (status, code) ↦ (failure status code, w)
    | go target ↦ respond_with_impersonation_token target uid w
  ]
