-- ===== src/Jobs/Consume/Existing.antt =====
-- A job submitted twice is recognised by its uploads.
use fyredocs_backend.Prelude.{
  String, false, ◌||◌, ◌=ₛ◌, ◌≡◌, ◌≢◌, Option, some, List, [], ◌∷◌, All, is_empty, Bool-cases,
  Option-cases, inl, inr, arith, eq_iff,
}
use fyredocs_backend.Store.{ok}
use fyredocs_backend.Store.Redis.{Redis}
use fyredocs_backend.Jobs.Consume.{consumed_upload_key, consumer, same_consumer, find_existing_job}

module _ {W : Type 0} (redis : Redis W) where
  -- The upload's record names the job.
  pub ConsumedBy : W → String → String → Type 0
  ConsumedBy w job id = (id ≢ "") × (redis.get w (consumed_upload_key id) ≡ ok job)

  consumer_ok :
      (w : W) (id got : String)
      → consumer redis w id ≡ some got
      → ConsumedBy w got id × ((got =ₛ "") ≡ false)
  unfolding consumer ConsumedBy
  consumer_ok w id got h = ground (arith, eq_iff id "")

  same_consumer_ok :
      (w : W) (job : String) (ids : List String) (j : String)
      → same_consumer redis w job ids ≡ some j
      → ((job =ₛ "") ≡ false → j ≡ job) × All (ConsumedBy w j) ids
  unfolding same_consumer
  same_consumer_ok w job [] j h = (λ n. ground arith, tt)
  same_consumer_ok w job (id ∷ ids) j h = elim (Option-cases (consumer redis w id)) [
    | inl e ↦ let h' = rw (e, same_consumer) at h in cc
    | inr (got, e) ↦
        let (by, named) = consumer_ok w id got e in
        elim (Bool-cases (job =ₛ "" || got =ₛ job)) [
          | inr f ↦ let h' = rw (e, same_consumer, f) at h in cc
          | inl t ↦
              let (same, rest) = same_consumer_ok w got ids j (rw (e, same_consumer, t) at h) in
              (λ n. ground (arith, same named, t, n, eq_iff got job), (rw (same named) by, rest))
        ]
  ]

  -- A job that is found for a batch of uploads is the database's job of an id that the record of
  -- every one of them names.
  pub find_existing_job_lem :
      {J : Type 0} (find_job : W → String → Option J) (ids : List String) (w : W) (job : J)
      → find_existing_job (some redis) find_job ids w ≡ some job
      → (j : String) × All (ConsumedBy w j) ids × (find_job w j ≡ some job)
  unfolding find_existing_job
  find_existing_job_lem find_job ids w job h = elim (Bool-cases (is_empty ids)) [
    | inl t ↦ let h' = rw t at h in cc
    | inr f ↦ elim (Option-cases (same_consumer redis w "" ids)) [
      | inl e ↦ let h' = rw (f, e) at h in cc
      | inr (j, e) ↦ let h' = rw (f, e) at h in (j, (same_consumer_ok w "" ids j e).1, h')
    ]
  ]
