-- ===== src/Jobs/Access/Deletion.antt =====
-- A job is deleted only by those who may see it.
use fyredocs_backend.Prelude.{
  ℕ, String, Bool, true, ◌=ₛ◌, ◌≡◌, ◌⊎◌, refl, ap, any, Option, none, some, List, Bool-cases,
  Option-cases, inl, inr, eq_iff,
}
use fyredocs_backend.Store.{Result, ok, err}
use fyredocs_backend.Store.Redis.{Redis}
use fyredocs_backend.Store.Objects.{Objects}
use fyredocs_backend.Http.{Reply, failure}
use fyredocs_backend.Uploads.Caller.{Caller}
use fyredocs_backend.Jobs.Tools.{normalize_tool_type}
use fyredocs_backend.Jobs.Access.{
  ProcessingJob, JobStore, guest_jobs_key, guest_job_ids, ids_or_none, may_access,
  authorize_job_access, delete_job_by_id,
}

module _ {W : Type 0} (redis : Redis W) (c : Caller) where
  -- The caller is the job's user, or the job is a guest's and listed under the caller's token.
  pub data MaySee (w : W) (job : ProcessingJob) : Type 0 where
    as_user : (uid : String) → c.user_id ≡ some uid → job.user_id ≡ some uid → MaySee w job
    as_guest :
        (ids : List String)
        → job.user_id ≡ none
        → redis.smembers w (guest_jobs_key c.guest_token) ≡ ok ids
        → any (λ id. id =ₛ job.id) ids ≡ true
        → MaySee w job

  answered :
      (p : String → Bool) (o : Result (List String))
      → any p (ids_or_none o) ≡ true
      → (ids : List String) × (o ≡ ok ids) × (any p ids ≡ true)
  unfolding ids_or_none
  answered p (err e) h = cc
  answered p (ok ids) h = (ids, refl, h)

  listed :
      (w : W) (id : String)
      → any (λ i. i =ₛ id) (guest_job_ids (some redis) c w) ≡ true
      → (ids : List String) × (redis.smembers w (guest_jobs_key c.guest_token) ≡ ok ids)
        × (any (λ i. i =ₛ id) ids ≡ true)
  unfolding guest_job_ids
  listed w id h = elim (Bool-cases (c.guest_token =ₛ "")) [
    | inl t ↦ let h' = rw t at h in cc
    | inr f ↦ answered (λ i. i =ₛ id) _ (rw f at h)
  ]

  access-cases :
      (owner caller : Option String) (lists : Bool)
      → may_access owner caller lists ≡ true
      → ((uid : String) × (caller ≡ some uid) × (owner ≡ some uid))
        ⊎ ((owner ≡ none) × (lists ≡ true))
  unfolding may_access
  access-cases (some o) none lists h = cc
  access-cases (some o) (some u) lists h = inl (u, refl, ap some ((eq_iff o u).0 h))
  access-cases none caller lists h = inr (refl, h)

  authorized :
      (w : W) (job : ProcessingJob)
      → authorize_job_access (some redis) c job w ≡ true
      → MaySee w job
  unfolding authorize_job_access
  authorized w job h = elim (access-cases _ _ _ h) [
    | inl (uid, caller, owner) ↦ as_user uid caller owner
    | inr (owner, lists) ↦ let (ids, e, found) = listed w job.id lists in as_guest ids owner e found
  ]

  module _ (jobs : JobStore W) (store : Option (Objects W)) where
    -- Either nothing has changed and the reply is an error, or the caller may see the job that the
    -- request names.
    pub data Guarded (w : W) (id : String) (r : Reply (Unit {0}) × W) : Type 0 where
      refused : (status : ℕ) (code : String) → r ≡ (failure status code, w) → Guarded w id r
      allowed :
          (tool_type : String) (job : ProcessingJob)
          → jobs.first_job w id tool_type ≡ some job
          → MaySee w job
          → Guarded w id r

    -- A request to delete a job is refused with an error and without any change, or it names a job
    -- that exists and that its caller may see: as its user, or for a guest's job as one whose token
    -- lists it.
    pub delete_job_by_id-Guarded :
        (tool id : String) (w : W)
        → Guarded w id (delete_job_by_id (some redis) c jobs store tool id w)
    unfolding delete_job_by_id
    delete_job_by_id-Guarded tool id w = elim (Option-cases (normalize_tool_type tool)) [
      | inl e ↦ refused 400 "INVALID_INPUT" (rw (e, delete_job_by_id) refl)
      | inr (t, e) ↦ elim (Option-cases (jobs.first_job w id t)) [
        | inl n ↦ refused 404 "NOT_FOUND" (rw (e, delete_job_by_id, n) refl)
        | inr (job, s) ↦ elim (Bool-cases (authorize_job_access (some redis) c job w)) [
          | inl a ↦ allowed t job s (authorized w job a)
          | inr a ↦ refused 404 "NOT_FOUND" (rw (e, delete_job_by_id, s, a) refl)
        ]
      ]
    ]
