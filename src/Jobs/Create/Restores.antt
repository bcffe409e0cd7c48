-- ===== src/Jobs/Create/Restores.antt =====
-- A request that fails before its job is stored leaves Redis as it found it.
pub mod Claimed
pub mod Direct
pub mod Reserved
use fyredocs_backend.Prelude.{
  ℕ, ◌∷◌, ◌≡◌, refl, sym, ap, subst, ◌∙◌, String, Bool, true, false, not, ◌&&◌, ◌||◌, ◌=ₛ◌,
  if◌then◌else◌, ltb, length, is_empty, any, Option, none, some, List, [], ◌++◌, inl, inr,
  Bool-cases, Option-cases, arith, eq_iff,
}
use fyredocs_backend.Prelude.Int.{pos, gtb_ℤ}
use fyredocs_backend.Store.{Result, ok, err, Fault}
use fyredocs_backend.Store.Redis.{Redis, KeyLaws}
use fyredocs_backend.Store.Objects.{Objects}
use fyredocs_backend.Http.{Reply, success, failure, Flow, go, reply}
use fyredocs_backend.Uploads.Caller.{Caller, plan_max_files_per_job}
use fyredocs_backend.Uploads.Session.{server_error, invalid_input}
use fyredocs_backend.Jobs.Tools.{service_for_tool}
use fyredocs_backend.Jobs.Claims.{
  Claim, claimed, conflict, failed, claim_uploads, claim_from, claim_round, release_upload_claims,
  upload_claim_key, upload_claim_ttl,
}
use fyredocs_backend.Jobs.Claims.Atomic.{claim_uploads-all_or_nothing, release_restores, keep-Holds}
use fyredocs_backend.Jobs.Consume.{ConsumeError, find_existing_job}
use fyredocs_backend.Jobs.Create.{
  JobBackend, NewJob, Fresh, CreatedJob, Inputs, InputFile, Outcome, Progress, not_committed,
  committed, queued, end_transaction, store_job, stored, dispatched, queue_job, existing_job,
}
use fyredocs_backend.Jobs.Create.Uploaded.{
  release_after, queue_consumed, consume_all, with_claims, claim_new, create_from_uploads,
  requested_ids, UploadJobRequest,
}

-- What is assumed of the Redis of a backend, if there is one: the laws of keys, and that it answers.
pub record Answers {W : Type 0} (redis : Redis W) (present : W → String → Bool) : Type 0 where
  pub laws : KeyLaws redis present
  pub del_works : (ks : List String) (w : W) → (redis.del ks w).0 ≡ ok tt
  pub set_nx_works :
      (k v : String) (t : ℕ) (w : W) (e : Fault) → (redis.set_nx k v t w).0 ≡ err e → ⊥

abbrev pub RedisLaws : {W : Type 0} → (W → String → Bool) → Option (Redis W) → Type 0
RedisLaws present none = Unit
RedisLaws present (some redis) = Answers redis present

module _ {W : Type 0} (b : JobBackend W) (c : Caller) (f : Fresh)
    (present : W → String → Bool) where
  abbrev pub Same : W → W → Type 0
  Same w w' = (j : String) → present w' j ≡ present w j

  -- A failure without a stored job has left the keys as they were.
  abbrev pub Kept : W → Outcome W → Type 0
  Kept w (success n x, p, w') = Unit
  Kept w (failure n code, not_committed, w') = Same w w'
  Kept w (failure n code, committed, w') = Unit
  Kept w (failure n code, queued, w') = Unit

  pub existing_job-Kept : (job : NewJob) (w v : W) → Kept w (existing_job b c f job v)
  unfolding existing_job
  existing_job-Kept job w v = tt

  dispatched-Kept :
      (job : NewJob) (ids : List String) (token : String) (v : W) (r : Result (Unit {0}) × W)
      → Kept v (dispatched b c f job ids token r)
  unfolding dispatched
  dispatched-Kept job ids token v (err e, w) = tt
  dispatched-Kept job ids token v (ok _, w) = tt

  end_transaction-err :
      (w : W) (r : Result (Unit {0}) × W) (e : Fault)
      → (end_transaction b c f w r).0 ≡ err e
      → (end_transaction b c f w r).1 ≡ w
  unfolding end_transaction
  end_transaction-err w (err x, v) e h = refl
  end_transaction-err w (ok _, v) e h = committing (b.commit v) h
    where
      committing :
          (r : Result (Unit {0}))
          → (elim r as (λ x. Result (Unit {0}) × W) [ err x ↦ (err x, w) | ok _ ↦ (ok tt, v) ]).0
            ≡ err e
          → (elim r as (λ x. Result (Unit {0}) × W) [ err x ↦ (err x, w) | ok _ ↦ (ok tt, v) ]).1
            ≡ w
      committing (err x) k = refl
      committing (ok _) k = cc

  stored-Kept :
      (tool : String) (i : Inputs) (w : W) (r : Result (Unit {0}) × W)
      → ((e : Fault) → r.0 ≡ err e → r.1 ≡ w)
      → Kept w (stored b c f tool i r)
  unfolding stored
  stored-Kept tool i w (err e, v) back = λ j. ap (λ x. present x j) (back e refl)
  stored-Kept tool i w (ok _, v) back = elim (Bool-cases (service_for_tool tool =ₛ "")) [
    | inl s ↦ rw (stored, s) tt
    | inr s ↦ rw (stored, s) (dispatched-Kept _ _ _ w _)
  ]

  pub queue_job-Kept : (tool : String) (i : Inputs) (w : W) → Kept w (queue_job b c f tool i w)
  unfolding queue_job store_job
  queue_job-Kept tool i w = stored-Kept tool i w _ (end_transaction-err w _)
