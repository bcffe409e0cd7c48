-- ===== src/Jobs/Create/Restores/Reserved.antt =====
-- The whole handler: the reservation of the idempotency key is given back too.
use fyredocs_backend.Prelude.{
  ℕ, ◌∷◌, ◌≡◌, refl, subst, String, Bool, true, false, ◌=ₛ◌, if◌then◌else◌, Option, none, some, [],
  inl, inr, Bool-cases, Option-cases, arith, eq_iff,
}
use fyredocs_backend.Store.{Result, ok, err, Fault}
use fyredocs_backend.Store.Redis.{Redis}
use fyredocs_backend.Store.Objects.{Objects}
use fyredocs_backend.Http.{success, failure}
use fyredocs_backend.Uploads.Caller.{Caller}
use fyredocs_backend.Jobs.Tools.{service_for_tool}
use fyredocs_backend.Jobs.Create.{JobBackend, Fresh, Outcome, not_committed, committed, queued}
use fyredocs_backend.Text.Space.{trim_space}
use fyredocs_backend.Jobs.Tools.{normalize_tool_type}
use fyredocs_backend.Jobs.Create.Handler.{
  Body, json, multipart, idempotency_redis_key, idempotency_key_ttl, create_from,
  release_reservation, holder, taken, reserved, with_reservation, with_store, create_job_from_tool,
}
use fyredocs_backend.Jobs.Create.Restores.Claimed.{create_from_uploads-Kept}
use fyredocs_backend.Jobs.Create.Restores.Direct.{create_direct-Kept}
use fyredocs_backend.Jobs.Create.Restores.{Answers, RedisLaws, Kept, existing_job-Kept}

module _ {W : Type 0} (present : W → String → Bool) (b : JobBackend W) (c : Caller) (f : Fresh)
    (laws : RedisLaws present b.redis)
    (quiet : (kind tool : String) (w : W) (j : String)
      → present (b.publish_limit_hit kind tool w) j ≡ present w j) where
  taken-Kept :
      (r : Redis W) (key : String) (w v : W)
      → ((j : String) → present v j ≡ present w j)
      → Kept b c f present w (taken b c f r key v)
  unfolding taken
  taken-Kept r key w v e = elim (Option-cases (holder b c f v (r.get v key))) [
    | inl h ↦ rw (taken, h) e
    | inr (job, h) ↦ rw (taken, h) (existing_job-Kept b c f present job w v)
  ]

  module _ (r : Redis W) (a : Answers r present) where
    release-Kept :
        (key : String) (w v : W) (o : Outcome W)
        → present w key ≡ false
        → ((j : String) → present v j ≡ (if key =ₛ j then true else present w j))
        → Kept b c f present v o
        → Kept b c f present w (release_reservation b c f r key o)
    unfolding release_reservation
    release-Kept key w v (success n x, not_committed, u) new e k = tt
    release-Kept key w v (success n x, committed, u) new e k = tt
    release-Kept key w v (success n x, queued, u) new e k = tt
    release-Kept key w v (failure n x, not_committed, u) new e k = λ j.
        ground (arith, a.laws.del_ok (key ∷ []) u (a.del_works _ u) j, k j, e j, eq_iff key j, new)
    release-Kept key w v (failure n x, committed, u) new e k = tt
    release-Kept key w v (failure n x, queued, u) new e k = tt

    reserved-Kept :
        (key : String) (rest : W → Outcome W) (w : W) (set : Result Bool × W)
        → ((e : Fault) → set.0 ≡ err e → ⊥)
        → (set.0 ≡ ok true
            → (present w key ≡ false)
              × ((j : String) → present set.1 j ≡ (if key =ₛ j then true else present w j)))
        → (set.0 ≡ ok false → (j : String) → present set.1 j ≡ present w j)
        → ((v : W) → Kept b c f present v (rest v))
        → Kept b c f present w (reserved b c f r key rest set)
    unfolding reserved
    reserved-Kept key rest w (err e, v) never new old k = absurd (never e refl)
    reserved-Kept key rest w (ok false, v) never new old k = taken-Kept r key w v (old refl)
    reserved-Kept key rest w (ok true, v) never new old k =
        let (absent, added) = new refl in release-Kept key w v (rest v) absent added (k v)

  reservation-Kept :
      (redis : Option (Redis W))
      → RedisLaws present redis
      → (key : String) (rest : W → Outcome W) (w : W) → ((v : W) → Kept b c f present v (rest v))
      → Kept b c f present w (with_reservation b c f redis key rest w)
  unfolding with_reservation
  reservation-Kept none answers key rest w k = k w
  reservation-Kept (some r) answers key rest w k = elim (Bool-cases (key =ₛ "")) [
    | inl e ↦ rw (with_reservation, e) (k w)
    | inr e ↦
        let key' = idempotency_redis_key key in
        rw (with_reservation, e)
          (reserved-Kept r answers key' rest w _
            (answers.set_nx_works key' f.job_id idempotency_key_ttl w)
            (answers.laws.set_nx_new key' f.job_id idempotency_key_ttl w)
            (λ old. (answers.laws.set_nx_old key' f.job_id idempotency_key_ttl w old).1) k)
  ]

  module _
      (put_quiet : (s : Objects W)
        → b.store ≡ some s
        → (bucket key : String) (size : ℕ) (w : W) (j : String)
        → present (s.put_object bucket key size w).1 j ≡ present w j)
      (remove_quiet : (s : Objects W)
        → b.store ≡ some s
        → (bucket key : String) (w : W) (j : String)
        → present (s.remove_object bucket key w).1 j ≡ present w j) where
    create_from-Kept :
        (s : Objects W)
        → b.store ≡ some s
        → (tool : String) (body : Body) (w : W)
        → Kept b c f present w (create_from b c f s tool body w)
    unfolding create_from
    create_from-Kept s e tool (json req) w =
        create_from_uploads-Kept present b c f laws quiet tool req w
    create_from-Kept s e tool (multipart form) w =
        create_direct-Kept present b c f s tool quiet (put_quiet s e) (remove_quiet s e) form w

    with_store-Kept :
        (store : Option (Objects W))
        → b.store ≡ store
        → (tool key : String) (body : Body) (w : W)
        → Kept b c f present w (with_store b c f store tool key body w)
    unfolding with_store
    with_store-Kept none e tool key body w = λ j. refl
    with_store-Kept (some s) e tool key body w =
        reservation-Kept b.redis laws key _ w (create_from-Kept s e tool body)

    answer-Kept :
        (tool key : String) (body : Body) (w : W)
        → Kept b c f present w (create_job_from_tool b c f tool key body w)
    unfolding create_job_from_tool
    answer-Kept tool key body w = elim (Option-cases (normalize_tool_type (trim_space tool))) [
      | inl e ↦ rw (e, create_job_from_tool) (λ j. refl)
      | inr (t, e) ↦ elim (Bool-cases (service_for_tool t =ₛ "")) [
        | inl s ↦ rw (e, create_job_from_tool, s) (λ j. refl)
        | inr s ↦ rw (e, create_job_from_tool, s) (with_store-Kept b.store refl t key body w)
      ]
    ]

    -- A request to create a job that is answered with a failure, and whose job has not been stored,
    -- leaves every key of Redis present or absent as it was: the reservation of its idempotency key
    -- and its claims on uploads are given back, whatever the body, and can be made again. Redis
    -- answers, and neither the object store nor the events for analytics touch its keys.
    pub create_job_from_tool-Kept :
        (tool key : String) (body : Body) (w : W) (status : ℕ) (code : String) (w' : W)
        → create_job_from_tool b c f tool key body w ≡ (failure status code, not_committed, w')
        → (j : String) → present w' j ≡ present w j
    create_job_from_tool-Kept tool key body w status code w' e =
        subst (Kept b c f present w) e (answer-Kept tool key body w)
