-- ===== src/Jobs/Access.antt =====
-- Who may see a job, how long it is kept, and its deletion (`authorizeJobAccess`, `guestJobIDs`,
-- `removeGuestJob`, `assignGuestTokenIfNeeded`, `jobExpiry`, `bucketFor` and `DeleteJobByID` of
-- job-service/handlers/jobs.go).
use Prim.Native.String.{◌++◌ as concat}
use text.Mathlib.Text.{starts_with}
use fyredocs_backend.Prelude.{
  ℕ, ◌+◌, String, Bool, true, false, ◌=ₛ◌, if◌then◌else◌, any, Option, none, some, List, [], ◌∷◌,
}
use fyredocs_backend.Store.{Result, ok, err}
use fyredocs_backend.Store.Redis.{Redis}
use fyredocs_backend.Store.Objects.{Objects}
use fyredocs_backend.Http.{Reply, success, failure}
use fyredocs_backend.Uploads.Caller.{Caller}
use fyredocs_backend.Uploads.Session.{invalid_input, server_error, session_gone}
use fyredocs_backend.Jobs.Tools.{normalize_tool_type}
pub mod Deletion

-- The fields of a job's row that these functions read.
pub record ProcessingJob : Type 0 where
  pub id : String
  pub user_id : Option String
  pub tool_type : String

pub record FileMetadata : Type 0 where
  pub kind : String
  pub path : String

-- The tables of jobs and files: queries, and statements whose results are kept where the handlers
-- use them.
pub record JobStore (W : Type 0) : Type 0 where
  pub first_job : W → String → String → Option ProcessingJob
  pub files_of : W → String → Result (List FileMetadata)
  pub delete_files : String → W → W
  pub delete_job : String → W → Result (Unit {0}) × W

-- In seconds, from `config.GuestJobTTL` and its kin.
pub record JobTtls : Type 0 where
  pub guest : ℕ
  pub free : ℕ
  pub pro : ℕ

unfoldable pub job_expiry : JobTtls → ℕ → Option String → String → ℕ
job_expiry ttls now none plan = now + ttls.guest
job_expiry ttls now (some uid) plan = now + (if plan =ₛ "pro" then ttls.pro else ttls.free)

unfoldable pub guest_jobs_key : String → String
guest_jobs_key token = concat (concat "guest:" token) ":jobs"

unfoldable pub ids_or_none : Result (List String) → List String
ids_or_none (err e) = []
ids_or_none (ok ids) = ids

-- The job's user, the caller, and whether the caller's token lists the job.
unfoldable pub may_access : Option String → Option String → Bool → Bool
may_access (some owner) none listed = false
may_access (some owner) (some uid) listed = owner =ₛ uid
may_access none caller listed = listed

module _ {W : Type 0} (redis : Option (Redis W)) (c : Caller) where
  -- Errors are no jobs.
  unfoldable pub guest_job_ids : W → List String
  guest_job_ids w = elim redis [
    | none ↦ []
    | some r ↦
        if c.guest_token =ₛ ""
        then []
        else ids_or_none (r.smembers w (guest_jobs_key c.guest_token))
  ]

  unfoldable pub remove_guest_job : String → W → W
  remove_guest_job job w = elim redis [
    | none ↦ w
    | some r ↦ if c.guest_token =ₛ "" then w else r.srem (guest_jobs_key c.guest_token) job w
  ]

  -- The guest's token, minted if there is none, and the world that lists the job under it.
  unfoldable pub assign_guest_token : ℕ → String → Option String → String → W → String × W
  assign_guest_token ttl fresh (some uid) job w = ("", w)
  assign_guest_token ttl fresh none job w = elim redis [
    | none ↦ ("", w)
    | some r ↦
        let token = if c.guest_token =ₛ "" then fresh else c.guest_token in
        (token, r.sadd_expire (guest_jobs_key token) job ttl w)
  ]

  -- A user's job is the user's; a guest's is for those whose token lists it, and without a token
  -- there is no list.
  unfoldable pub authorize_job_access : ProcessingJob → W → Bool
  authorize_job_access job w =
      may_access job.user_id c.user_id (any (λ id. id =ₛ job.id) (guest_job_ids w))

  module _ (jobs : JobStore W) (store : Option (Objects W)) where
    unfoldable pub bucket_for : Objects W → String → String
    bucket_for s kind = if kind =ₛ "input" then s.bucket_uploads else s.bucket_outputs

    -- Paths on disk of old rows are passed over, and failed removals only logged.
    unfoldable pub remove_objects : List FileMetadata → W → W
    remove_objects [] w = w
    remove_objects (f ∷ fs) w =
        let skipped = remove_objects fs w in
        if starts_with f.path "/" then skipped else elim store [
          | none ↦ skipped
          | some s ↦ remove_objects fs (s.remove_object (bucket_for s f.kind) f.path w).1
        ]

    unfoldable pub files_or_none : Result (List FileMetadata) → List FileMetadata
    files_or_none (err e) = []
    files_or_none (ok fs) = fs

    -- Lines 532 to 539.
    unfoldable pub deleted : String → Result (Unit {0}) × W → Reply (Unit {0}) × W
    deleted job (err e, w) = (server_error, w)
    deleted job (ok _, w) = (success 204 tt, remove_guest_job job w)

    -- Lines 510 to 539.
    unfoldable pub delete_found : ProcessingJob → W → Reply (Unit {0}) × W
    delete_found job w =
        let w' =
          jobs.delete_files job.id (remove_objects (files_or_none (jobs.files_of w job.id)) w) in
        deleted job.id (jobs.delete_job job.id w')

    unfoldable pub delete_job_by_id : String → String → W → Reply (Unit {0}) × W
    delete_job_by_id tool id w = elim (normalize_tool_type tool) [
      | none ↦ (invalid_input, w)
      | some tool_type ↦ elim (jobs.first_job w id tool_type) [
        | none ↦ (session_gone, w)
        | some job ↦ if authorize_job_access job w then delete_found job w else (session_gone, w)
      ]
    ]
