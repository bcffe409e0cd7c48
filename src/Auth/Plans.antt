-- ===== src/Auth/Plans.antt =====
-- The caller's own account and plan (`Me`, `loadUserFromAuth` and `ChangePlan` of
-- auth-service/handlers/auth.go). The caller's id and role are those of the verified token.
pub mod AdminOnly
use fyredocs_backend.Prelude.{ℕ, String, ◌=ₛ◌, if◌then◌else◌, Option, none, some}
use fyredocs_backend.Store.{Result, ok, err, not_found, broken}
use fyredocs_backend.Http.{Reply, success, failure, Flow, go, reply}
use fyredocs_backend.Text.Space.{trim_space}
use fyredocs_backend.Auth.Accounts.{
  User, SubscriptionPlan, AuthUser, build_user_response, can_change_plan,
}
use fyredocs_backend.Auth.Backend.{
  World, Backend, Moment, on_users, publish_event, cache_plan_info, lookup_plan,
}
use fyredocs_backend.Auth.Grant.{plan_or}

module _ {U S R Q : Type 0} (b : Backend U S R Q) (m : Moment) where
  unfoldable pub load_user_from_auth : String → World U S R Q → Flow (ℕ × String) User
  load_user_from_auth uid w =
      if trim_space uid =ₛ ""
      then reply (401, "UNAUTHORIZED")
      else elim (b.parse_uuid (trim_space uid)) [
        | none ↦ reply (401, "UNAUTHORIZED")
        | some id ↦ elim (b.users.first (λ u. u.id =ₛ id) w.users) [
          | err e ↦ reply (401, "UNAUTHORIZED")
          | ok user ↦ go user
        ]
      ]

  unfoldable pub me : String → String → World U S R Q → Reply AuthUser × World U S R Q
  me uid role w = elim (load_user_from_auth uid w) [
    | reply (status, code) ↦ (failure status code, w)
    | go user ↦
        let (found, w') = lookup_plan b m.now user.plan_name w in
        let named : SubscriptionPlan = record {
          name = user.plan_name;
          max_file_size_mb = 0;
          max_files_per_job = 0;
          retention_days = 0;
        } in
        (success 200 (build_user_response user role (plan_or named found)), w')
  ]

  -- After the statement.
  unfoldable pub plan_updated :
      User
      → SubscriptionPlan
      → String
      → Result (Unit {0}) × World U S R Q
      → Reply AuthUser × World U S R Q
  plan_updated user plan name (err e, w) = (failure 500 "SERVER_ERROR", w)
  plan_updated user plan name (ok _, w) =
      let moved : User = record user { plan_name = name } in
      (
        success 200 (build_user_response moved user.role plan),
        publish_event b "plan.changed" user.id name (cache_plan_info b user.id plan b.access_ttl w),
      )

  -- From the check of the old plan on.
  unfoldable pub move_to_plan :
      User → SubscriptionPlan → String → World U S R Q → Reply AuthUser × World U S R Q
  move_to_plan user plan name w =
      let moved =
        plan_updated user plan name (
          on_users (b.users.update (λ u. u.id =ₛ user.id) (λ u. record u { plan_name = name }))
            w) in
      if user.plan_name =ₛ name then (failure 400 "SAME_PLAN", w) else moved

  unfoldable pub find_plan :
      User → String → Result SubscriptionPlan → World U S R Q → Reply AuthUser × World U S R Q
  find_plan user name (err not_found) w = (failure 400 "INVALID_PLAN", w)
  find_plan user name (err (broken e)) w = (failure 500 "SERVER_ERROR", w)
  find_plan user name (ok plan) w = move_to_plan user plan name w

  -- The body's plan name; a body that does not bind is `none`.
  unfoldable pub change_plan_of :
      User → Option String → World U S R Q → Reply AuthUser × World U S R Q
  change_plan_of user none w = (failure 400 "INVALID_INPUT", w)
  change_plan_of user (some body) w =
      let name = trim_space body in
      if name =ₛ ""
      then (failure 400 "INVALID_INPUT", w)
      else find_plan user name (b.first_plan name) w

  unfoldable pub change_plan :
      String → Option String → World U S R Q → Reply AuthUser × World U S R Q
  change_plan uid body w = elim (load_user_from_auth uid w) [
    | reply (status, code) ↦ (failure status code, w)
    | go user ↦
        if can_change_plan user.role
        then change_plan_of user body w
        else (failure 403 "FORBIDDEN", w)
  ]
