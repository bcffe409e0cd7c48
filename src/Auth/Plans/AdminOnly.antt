-- ===== src/Auth/Plans/AdminOnly.antt =====
-- Only an admin's plan can be changed, and only the admin's own.
use fyredocs_backend.Prelude.{
  ℕ, String, true, false, ◌≡◌, refl, ◌∙◌, ◌⊎◌, inl, inr, Bool-cases, ◌=ₛ◌, Option, none, some,
  eq_iff,
}
use fyredocs_backend.Store.{Result, ok, err, not_found, broken}
use fyredocs_backend.Http.{Reply, failure, go, Flow-cases}
use fyredocs_backend.Text.Space.{trim_space}
use fyredocs_backend.Auth.Accounts.{User, SubscriptionPlan, AuthUser, can_change_plan}
use fyredocs_backend.Auth.Backend.{World, Backend, Moment, on_users}
use fyredocs_backend.Auth.Backend.Tables.{tables, publish_event-tables, cache_plan_info-tables}
use fyredocs_backend.Auth.Plans.{
  load_user_from_auth, change_plan, change_plan_of, find_plan, move_to_plan, plan_updated,
}

module _ {U S R Q : Type 0} (b : Backend U S R Q) (m : Moment) where
  -- A request is refused with an error, or it moves the user to a plan that exists.
  pub data Moves (user : User) (name : String) (w : World U S R Q)
      (r : Reply AuthUser × World U S R Q) : Type 0 where
    refuses : (status : ℕ) (code : String) → r ≡ (failure status code, w) → Moves user name w r
    moves :
        (plan : SubscriptionPlan)
        → b.first_plan name ≡ ok plan
        → (user.plan_name =ₛ name) ≡ false
        → tables r.1
          ≡ tables
              (on_users
                (b.users.update (λ u. u.id =ₛ user.id) (λ u. record u { plan_name = name }))
                w).1
        → Moves user name w r

  plan_updated-tables :
      (user : User) (plan : SubscriptionPlan) (name : String)
      (r : Result (Unit {0}) × World U S R Q)
      → tables (plan_updated b m user plan name r).1 ≡ tables r.1
  unfolding plan_updated
  plan_updated-tables user plan name (err e, w) = refl
  plan_updated-tables user plan name (ok _, w) =
      publish_event-tables b "plan.changed" user.id name _
      ∙ cache_plan_info-tables b user.id plan _ w

  find_plan-Moves :
      (user : User) (name : String) (w : World U S R Q) (found : Result SubscriptionPlan)
      → b.first_plan name ≡ found
      → Moves user name w (find_plan b m user name found w)
  unfolding find_plan move_to_plan
  find_plan-Moves user name w (err not_found) e = refuses 400 "INVALID_PLAN" refl
  find_plan-Moves user name w (err (broken x)) e = refuses 500 "SERVER_ERROR" refl
  find_plan-Moves user name w (ok plan) e = elim (Bool-cases (user.plan_name =ₛ name)) [
    | inl s ↦ refuses 400 "SAME_PLAN" (rw (find_plan, s) refl)
    | inr s ↦ moves plan e s (rw (find_plan, s) (plan_updated-tables user plan name _))
  ]

  roles :
      (role : String)
      → can_change_plan role ≡ true
      → (trim_space role ≡ "admin") ⊎ (trim_space role ≡ "super-admin")
  unfolding can_change_plan
  roles role h = elim (Bool-cases (trim_space role =ₛ "admin")) [
    | inl e ↦ inl ((eq_iff _ _).0 e)
    | inr e ↦ inr ((eq_iff _ _).0 (rw e at h))
  ]

  Admitted : User → Option String → World U S R Q → Reply AuthUser × World U S R Q → Type 0
  Admitted user body w r =
      ((status : ℕ) × (code : String) × (r ≡ (failure status code, w)))
      ⊎ ((raw : String) × (body ≡ some raw) × Moves user (trim_space raw) w r)

  change_plan_of-Admitted :
      (user : User) (body : Option String) (w : World U S R Q)
      → Admitted user body w (change_plan_of b m user body w)
  unfolding Admitted change_plan_of
  change_plan_of-Admitted user none w = inl (400, "INVALID_INPUT", refl)
  change_plan_of-Admitted user (some body) w = elim (Bool-cases (trim_space body =ₛ "")) [
    | inl e ↦ inl (400, "INVALID_INPUT", rw (change_plan_of, e) refl)
    | inr e ↦ inr (body, refl, rw (change_plan_of, e) (find_plan-Moves user _ w _ refl))
  ]

  -- A request to change a plan is refused with an error and changes nothing, or its caller's row is
  -- found and has the role admin or super-admin, the plan that the body names exists and is not the caller's
  -- already, and no table has changed but by the statement that gives the caller's own row the new
  -- plan.
  pub change_plan-AdminOnly :
      (uid : String) (body : Option String) (w : World U S R Q)
      → ((status : ℕ) × (code : String) × (change_plan b m uid body w ≡ (failure status code, w)))
        ⊎ ((user : User) × (raw : String) × (body ≡ some raw)
            × (load_user_from_auth b m uid w ≡ go user)
            × ((trim_space user.role ≡ "admin") ⊎ (trim_space user.role ≡ "super-admin"))
            × Moves user (trim_space raw) w (change_plan b m uid body w))
  unfolding change_plan Admitted
  change_plan-AdminOnly uid body w = elim (Flow-cases (load_user_from_auth b m uid w)) [
    | inl ((status, code), e) ↦ inl (status, code, rw (change_plan, e) refl)
    | inr (user, e) ↦ elim (Bool-cases (can_change_plan user.role)) [
      | inl c ↦ elim (change_plan_of-Admitted user body w) [
        | inl (status, code, r) ↦ inl (status, code, rw (change_plan, e, c) r)
        | inr (raw, named, r) ↦
            inr (user, raw, named, e, roles user.role c, rw (change_plan, e, c) r)
      ]
      | inr c ↦ inl (403, "FORBIDDEN", rw (change_plan, e, c) refl)
    ]
  ]
