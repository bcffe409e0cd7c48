-- ===== src/Jobs/Create.antt =====
-- Creating a job (`CreateJobFromTool` of job-service/handlers/jobs.go): what it works with, and the
-- part that both kinds of body share, from the job's row to its dispatch.
pub mod Uploaded
pub mod Direct
pub mod Handler
pub mod Restores
pub mod Idempotent
pub mod Inserted
pub mod Underway
pub mod Deferred
pub mod Dispatched
use Prim.Native.String.{◌++◌ as concat}
use fyredocs_backend.Prelude.{
  ℕ, ◌+◌, ◌%◌, ◌^◌, String, Bool, ◌=ₛ◌, if◌then◌else◌, Option, none, some, List, [], ◌∷◌, map,
}
use fyredocs_backend.Prelude.Int.{ℤ, to_int64}
use fyredocs_backend.Config.{Env}
use fyredocs_backend.Store.{Result, ok, err}
use fyredocs_backend.Store.Redis.{Redis}
use fyredocs_backend.Store.Objects.{Objects}
use fyredocs_backend.Http.{Reply, success, failure}
use fyredocs_backend.Uploads.Caller.{Caller}
use fyredocs_backend.Uploads.Session.{server_error, invalid_input}
use fyredocs_backend.Jobs.Tools.{service_for_tool}
use fyredocs_backend.Jobs.Consume.{record_consumed_upload, release_upload}
use fyredocs_backend.Jobs.Access.{JobTtls, job_expiry, assign_guest_token}

-- The rows that are inserted. The status is "queued" and the progress 0.
pub record NewJob : Type 0 where
  pub id : String
  pub user_id : Option String
  pub tool_type : String
  pub file_name : String
  pub file_size : ℤ
  pub options : String
  pub correlation_id : String
  pub expires_at : ℕ

pub record InputFile : Type 0 where
  pub original_name : String
  pub path : String
  pub size : ℕ

-- The event that hands the job to a worker, and its subject's service.
pub record Dispatch : Type 0 where
  pub service : String
  pub job_id : String
  pub tool_type : String
  pub input_paths : List String
  pub options : Option String
  pub correlation_id : String

pub record CreatedJob : Type 0 where
  pub job : NewJob
  pub guest_token : String

-- What the deferred functions ask when the handler returns: whether the job is stored
-- (`idempotencyCommitted`) and whether it is dispatched too (`jobQueued`).
pub data Progress : Type 0 where
  not_committed committed queued : Progress

-- The database and the messages. `check_options` is `validateToolOptions` (true if it accepts),
-- `json_valid` is `json.Valid`, and the analytics events are fire and forget. The metadata's JSON, which keeps the options and the
-- correlation id, can always be written.
pub record JobBackend (W : Type 0) : Type 0 where
  pub redis : Option (Redis W)
  pub store : Option (Objects W)
  pub find_job : W → String → Option NewJob
  pub insert_job : NewJob → W → Result (Unit {0}) × W
  pub insert_file : String → InputFile → W → Result (Unit {0}) × W
  pub commit : W → Result (Unit {0})
  pub publish_job : Dispatch → W → Result (Unit {0}) × W
  pub publish_created : NewJob → W → W
  pub publish_limit_hit : String → String → W → W
  pub check_options : String → String → Bool
  pub json_valid : String → Bool
  pub detect : String → String
  pub env : Env
  pub ttls : JobTtls

-- What a request may use: the time, new UUIDs, and a guest token that may be minted.
pub record Fresh : Type 0 where
  pub now : ℕ
  pub job_id : String
  pub correlation_id : String
  pub guest_token : String

abbrev pub Outcome : Type 0 → Type 0
Outcome W = Reply CreatedJob × Progress × W

-- What the two branches hand on: the files, the first file's name, the options and the uploads that
-- were consumed.
pub record Inputs : Type 0 where
  pub files : List InputFile
  pub name : String
  pub options : String
  pub upload_ids : List String

-- int64: it wraps round.
abbrev sum : List InputFile → ℕ
sum [] = 0
sum (f ∷ fs) = f.size + sum fs

unfoldable pub total_size : List InputFile → ℤ
total_size fs = to_int64 (sum fs % 2 ^ 64)

-- Lines 315 to 319.
unfoldable pub job_name : String → String → String
job_name tool name =
    if tool =ₛ "merge-pdf" then "merged.pdf" else if name =ₛ "" then "document.pdf" else name

-- The options as the event carries them: nothing for a text that is empty or no JSON.
unfoldable pub options_payload : (String → Bool) → String → Option String
options_payload json_valid raw =
    if raw =ₛ "" then none else if json_valid raw then some raw else none

module _ {W : Type 0} (b : JobBackend W) (c : Caller) (f : Fresh) where
  unfoldable pub new_job : String → Inputs → NewJob
  new_job tool i = record {
    id = f.job_id;
    user_id = c.user_id;
    tool_type = tool;
    file_name = job_name tool i.name;
    file_size = total_size i.files;
    options = i.options;
    correlation_id = f.correlation_id;
    expires_at = job_expiry b.ttls f.now c.user_id c.plan_name;
  }

  unfoldable pub dispatch_of : String → Inputs → Dispatch
  unfolding options_payload
  dispatch_of tool i = record {
    service = service_for_tool tool;
    job_id = f.job_id;
    tool_type = tool;
    input_paths = map (λ file. file.path) i.files;
    options = options_payload b.json_valid i.options;
    correlation_id = f.correlation_id;
  }

  -- The loop over the files in the transaction; the first failure ends it.
  unfoldable pub insert_files : List InputFile → Result (Unit {0}) × W → Result (Unit {0}) × W
  insert_files files (err e, w) = (err e, w)
  insert_files [] (ok _, w) = (ok tt, w)
  insert_files (file ∷ files) (ok _, w) = insert_files files (b.insert_file f.job_id file w)

  -- The transaction: what a failed body or COMMIT has done is rolled back.
  unfoldable pub end_transaction : W → Result (Unit {0}) × W → Result (Unit {0}) × W
  end_transaction before (err e, w) = (err e, before)
  end_transaction before (ok _, w) = elim (b.commit w) [
    | err e ↦ (err e, before)
    | ok _ ↦ (ok tt, w)
  ]

  unfoldable pub store_job : NewJob → List InputFile → W → Result (Unit {0}) × W
  store_job job files w = end_transaction w (insert_files files (b.insert_job job w))

  -- Lines 405 to 408.
  unfoldable pub record_uploads : List String → W → W
  record_uploads [] w = w
  record_uploads (id ∷ ids) w =
      record_uploads ids (release_upload b.redis id (record_consumed_upload b.redis id f.job_id w))

  -- Lines 390 to 418.
  unfoldable pub dispatched : NewJob → List String → String → Result (Unit {0}) × W → Outcome W
  dispatched job ids token (err e, w) = (server_error, committed, w)
  dispatched job ids token (ok _, w) = (
    success 201 (record { job = job; guest_token = token }),
    queued,
    b.publish_created job (record_uploads ids w),
  )

  -- Lines 363 to 418.
  unfoldable pub stored : String → Inputs → Result (Unit {0}) × W → Outcome W
  stored tool i (err e, w) = (server_error, not_committed, w)
  stored tool i (ok _, w) =
      let (token, w') =
        assign_guest_token b.redis c b.ttls.guest f.guest_token c.user_id f.job_id w in
      let sent =
        dispatched (new_job tool i) i.upload_ids token (b.publish_job (dispatch_of tool i) w') in
      if service_for_tool tool =ₛ "" then (invalid_input, committed, w') else sent

  -- Lines 315 to 418.
  unfoldable pub queue_job : String → Inputs → W → Outcome W
  queue_job tool i w = stored tool i (store_job (new_job tool i) i.files w)

  -- A job that exists already is answered like a new one.
  unfoldable pub existing_job : NewJob → W → Outcome W
  existing_job job w =
      let (token, w') =
        assign_guest_token b.redis c b.ttls.guest f.guest_token c.user_id job.id w in
      (success 201 (record { job = job; guest_token = token }), not_committed, w')
