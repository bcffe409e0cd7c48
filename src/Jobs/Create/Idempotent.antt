-- ===== src/Jobs/Create/Idempotent.antt =====
-- A reserved idempotency key keeps every other request from storing a job.
use fyredocs_backend.Prelude.{
  ◌≡◌, refl, sym, subst, String, Bool, true, false, ◌=ₛ◌, Option, none, some, inl, inr, Bool-cases,
  Option-cases,
}
use fyredocs_backend.Store.{Result, ok, err, Fault}
use fyredocs_backend.Store.Redis.{Redis}
use fyredocs_backend.Store.Objects.{Objects}
use fyredocs_backend.Text.Space.{trim_space}
use fyredocs_backend.Uploads.Caller.{Caller}
use fyredocs_backend.Jobs.Tools.{normalize_tool_type, service_for_tool}
use fyredocs_backend.Jobs.Create.{JobBackend, Fresh, Outcome, not_committed, existing_job}
use fyredocs_backend.Jobs.Create.Handler.{
  Body, idempotency_redis_key, idempotency_key_ttl, create_from, holder, taken, reserved,
  with_reservation, with_store, create_job_from_tool,
}
use fyredocs_backend.Jobs.Create.Restores.{Answers}

module _ {W : Type 0} (present : W → String → Bool) (b : JobBackend W) (c : Caller) (f : Fresh)
    (r : Redis W) (a : Answers r present) where
  taken-stores_none : (key : String) (v : W) → (taken b c f r key v).1 ≡ not_committed
  unfolding taken existing_job
  taken-stores_none key v = elim (Option-cases (holder b c f v (r.get v key))) [
    | inl h ↦ rw (taken, h) refl
    | inr (job, h) ↦ rw (taken, h) refl
  ]

  reserved-stores_none :
      (key : String) (rest : W → Outcome W) (set : Result Bool × W)
      → ((e : Fault) → set.0 ≡ err e → ⊥)
      → (set.0 ≡ ok true → ⊥)
      → (reserved b c f r key rest set).1 ≡ not_committed
  unfolding reserved
  reserved-stores_none key rest (err e, v) never held = absurd (never e refl)
  reserved-stores_none key rest (ok false, v) never held = taken-stores_none key v
  reserved-stores_none key rest (ok true, v) never held = absurd (held refl)

  with_reservation-stores_none :
      (key : String) (rest : W → Outcome W) (w : W)
      → (key =ₛ "") ≡ false
      → present w (idempotency_redis_key key) ≡ true
      → (with_reservation b c f (some r) key rest w).1 ≡ not_committed
  unfolding with_reservation
  with_reservation-stores_none key rest w shown held =
      let k = idempotency_redis_key key in
      rw (with_reservation, shown)
        (reserved-stores_none k rest _ (a.set_nx_works k f.job_id idempotency_key_ttl w)
          (λ won. let absent = (a.laws.set_nx_new k f.job_id idempotency_key_ttl w won).0 in cc))

  with_store-stores_none :
      (store : Option (Objects W)) (tool key : String) (body : Body) (w : W)
      → b.redis ≡ some r
      → (key =ₛ "") ≡ false
      → present w (idempotency_redis_key key) ≡ true
      → (with_store b c f store tool key body w).1 ≡ not_committed
  unfolding with_store
  with_store-stores_none none tool key body w has shown held = refl
  with_store-stores_none (some s) tool key body w has shown held =
      subst
        (λ redis.
          (with_reservation b c f redis key (create_from b c f s tool body) w).1 ≡ not_committed)
        (sym has) (with_reservation-stores_none key _ w shown held)

  -- A request to create a job whose idempotency key is present in Redis stores no job, whatever it
  -- asks for. Redis answers.
  pub create_job_from_tool-once :
      (tool key : String) (body : Body) (w : W)
      → b.redis ≡ some r
      → (key =ₛ "") ≡ false
      → present w (idempotency_redis_key key) ≡ true
      → (create_job_from_tool b c f tool key body w).1 ≡ not_committed
  unfolding create_job_from_tool
  create_job_from_tool-once tool key body w has shown held =
      elim (Option-cases (normalize_tool_type (trim_space tool))) [
        | inl e ↦ rw (e, create_job_from_tool) refl
        | inr (t, e) ↦ elim (Bool-cases (service_for_tool t =ₛ "")) [
          | inl s ↦ rw (e, create_job_from_tool, s) refl
          | inr s ↦
              rw (e, create_job_from_tool, s)
                (with_store-stores_none b.store t key body w has shown held)
        ]
      ]
