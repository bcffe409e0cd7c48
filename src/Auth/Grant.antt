-- ===== src/Auth/Grant.antt =====
-- Issuing a pair of tokens (`respondWithTokens` of auth-service/handlers/auth.go).
pub mod Opened
pub mod Replies
use fyredocs_backend.Prelude.{ℕ, String, Option, none, some, List, [], ◌∷◌}
use fyredocs_backend.Store.{Result, ok, err}
use fyredocs_backend.Http.{Reply, success, failure}
use fyredocs_backend.Auth.Accounts.{
  User, SubscriptionPlan, AuthUser, build_user_response, token_role, free_plan,
}
use fyredocs_backend.Auth.Rows.{store_session}
use fyredocs_backend.Auth.Issuer.{Issued, issue_access_token, issue_refresh_token}
use fyredocs_backend.Auth.Cookies.{Cookie, set_access_token_cookie, set_refresh_token_cookie}
use fyredocs_backend.Auth.Backend.{
  World, Backend, Moment, on_sessions, cache_plan_info, lookup_plan,
}

-- The body of a success, and the cookies set with it.
pub record Granted : Type 0 where
  pub user : AuthUser
  pub access_expires_at : ℕ
  pub cookies : List Cookie

unfoldable pub plan_or : SubscriptionPlan → Option SubscriptionPlan → SubscriptionPlan
plan_or d none = d
plan_or d (some p) = p

module _ {U S R Q : Type 0} (b : Backend U S R Q) (m : Moment) where
  -- Lines 342 to 359. A session that cannot be stored is only logged.
  unfoldable pub open_user_session :
      User
      → SubscriptionPlan
      → Issued
      → Issued
      → Option String
      → World U S R Q
      → Reply Granted × World U S R Q
  open_user_session user plan access refresh none w = (failure 500 "SERVER_ERROR", w)
  open_user_session user plan access refresh (some sid) w =
      let w' =
        (on_sessions
          (store_session b.sessions b.hash_token sid user.id access.token access.expires_at
            refresh.token refresh.expires_at)
          w).1 in
      (
        success 200 (record {
          user = build_user_response user (token_role user) plan;
          access_expires_at = access.expires_at;
          cookies =
              set_access_token_cookie b.env access.token b.access_ttl
              ∷ set_refresh_token_cookie b.env refresh.token b.refresh_ttl
              ∷ [];
        }),
        w',
      )

  -- Lines 335 to 359.
  unfoldable pub with_refresh_token :
      User
      → SubscriptionPlan
      → Issued
      → Result Issued
      → World U S R Q
      → Reply Granted × World U S R Q
  with_refresh_token user plan access (err e) w = (failure 500 "SERVER_ERROR", w)
  with_refresh_token user plan access (ok refresh) w =
      open_user_session user plan access refresh (b.parse_uuid access.jti) w

  -- Lines 328 to 359.
  unfoldable pub with_access_token :
      User → SubscriptionPlan → Result Issued → World U S R Q → Reply Granted × World U S R Q
  with_access_token user plan (err e) w = (failure 500 "SERVER_ERROR", w)
  with_access_token user plan (ok access) w =
      with_refresh_token user plan access
        (issue_refresh_token b.issuer m.now m.refresh_jti user.id b.refresh_ttl) w

  unfoldable pub respond_with_tokens : User → World U S R Q → Reply Granted × World U S R Q
  respond_with_tokens user w =
      let (found, w') = lookup_plan b m.now user.plan_name w in
      let plan = plan_or free_plan found in
      with_access_token user plan
        (issue_access_token b.issuer m.now m.access_jti user.id (token_role user) [] b.access_ttl)
        (cache_plan_info b user.id plan b.access_ttl w')
