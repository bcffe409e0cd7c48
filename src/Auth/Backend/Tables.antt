-- ===== src/Auth/Backend/Tables.antt =====
-- Events, caches and denials leave the tables alone.
use fyredocs_backend.Prelude.{ℕ, String, ◌=ₛ◌, ◌≡◌, refl, ltb, inl, inr, Bool-cases, Option-cases}
use fyredocs_backend.Auth.Accounts.{SubscriptionPlan}
use fyredocs_backend.Store.{Result, ok, err}
use fyredocs_backend.Auth.Backend.{
  World, Backend, publish_event, cache_plan_info, delete_plan_cache, deny_token_hash, deny_token,
  plan_answer, cached_plan, lookup_plan,
}

module _ {U S R Q : Type 0} where
  -- The three tables of a world.
  abbrev pub tables : World U S R Q → U × S × R
  tables w = (w.users, w.sessions, w.resets)

  module _ (b : Backend U S R Q) where
    pub publish_event-tables :
        (kind uid plan : String) (w : World U S R Q)
        → tables (publish_event b kind uid plan w) ≡ tables w
    unfolding publish_event
    publish_event-tables kind uid plan w = elim (Bool-cases b.has_jet_stream) [
      | inl e ↦ rw e refl
      | inr e ↦ rw e refl
    ]

    pub cache_plan_info-tables :
        (uid : String) (plan : SubscriptionPlan) (ttl : ℕ) (w : World U S R Q)
        → tables (cache_plan_info b uid plan ttl w) ≡ tables w
    unfolding cache_plan_info
    cache_plan_info-tables uid plan ttl w = elim (Option-cases b.redis) [
      | inl e ↦ rw e refl
      | inr (r, e) ↦ rw e refl
    ]

    pub delete_plan_cache-tables :
        (uid : String) (w : World U S R Q) → tables (delete_plan_cache b uid w) ≡ tables w
    unfolding delete_plan_cache
    delete_plan_cache-tables uid w = elim (Option-cases b.redis) [
      | inl e ↦ rw e refl
      | inr (r, e) ↦ rw e refl
    ]

    pub deny_token_hash-tables :
        (hash : String) (ttl : ℕ) (w : World U S R Q)
        → tables (deny_token_hash b hash ttl w) ≡ tables w
    unfolding deny_token_hash
    deny_token_hash-tables hash ttl w = elim (Option-cases b.denylist) [
      | inl e ↦ rw e refl
      | inr (r, e) ↦ elim (Bool-cases (hash =ₛ "")) [
        | inl h ↦ rw (e, h) refl
        | inr h ↦ rw (e, h) refl
      ]
    ]

    pub deny_token-tables :
        (token : String) (ttl : ℕ) (w : World U S R Q)
        → tables (deny_token b token ttl w) ≡ tables w
    unfolding deny_token
    deny_token-tables token ttl w = elim (Option-cases b.denylist) [
      | inl e ↦ rw e refl
      | inr (r, e) ↦ elim (Bool-cases (token =ₛ "")) [
        | inl h ↦ rw (e, h) refl
        | inr h ↦ rw (e, h) refl
      ]
    ]

    plan_answer-tables :
        (now : ℕ) (name : String) (r : Result SubscriptionPlan) (w : World U S R Q)
        → tables (plan_answer b now name r w).1 ≡ tables w
    unfolding plan_answer
    plan_answer-tables now name (err e) w = refl
    plan_answer-tables now name (ok plan) w = elim (Bool-cases (ltb 0 b.plan_cache_ttl)) [
      | inl e ↦ rw e refl
      | inr e ↦ rw e refl
    ]

    pub lookup_plan-tables :
        (now : ℕ) (name : String) (w : World U S R Q)
        → tables (lookup_plan b now name w).1 ≡ tables w
    unfolding lookup_plan
    lookup_plan-tables now name w = elim (Bool-cases (name =ₛ "")) [
      | inl e ↦ rw e refl
      | inr e ↦ elim (Option-cases (cached_plan b now name w)) [
        | inl c ↦ rw (e, c) (plan_answer-tables now name (b.first_plan name) w)
        | inr (plan, c) ↦ rw (e, c) refl
      ]
    ]
