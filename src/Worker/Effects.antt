-- ===== src/Worker/Effects.antt =====
-- What a worker does to the outside, and the status it writes (`updateJobStatus`,
-- `statusToEventType`, `publishStatusEvent` of worker.go, `JobEvent` and its subjects of
-- shared/queue/events.go).
use Prim.Native.String.{◌++◌ as concat}
use fyredocs_backend.Prelude.{ℕ, String, Bool, true, false, List, [], ◌∷◌, ◌=ₛ◌, if◌then◌else◌}

pub record JobPayload : Type 0 where
  pub event_type : String
  pub job_id : String
  pub tool_type : String
  pub input_paths : List String
  pub options : String
  pub attempts : ℕ
  pub correlation_id : String

-- The fields that the workers set; the time is left out.
pub record JobEvent : Type 0 where
  pub event_type : String
  pub job_id : String
  pub tool_type : String
  pub progress : ℕ
  pub failure_reason : String
  pub file_size : ℕ

-- What an UPDATE does to the column `failure_reason`.
pub data Reason : Type 0 where
  keep clear : Reason
  set : String → Reason

pub record Updates : Type 0 where
  pub status : String
  pub progress : ℕ
  pub completed_at : Bool
  pub failure_reason : Reason

pub data Effect : Type 0 where
  update_job : String → Updates → Effect
  clear_failure : String → Effect
  merge_metadata : String → String → Effect
  delete_output : String → Effect
  create_output : String → String → ℕ → Effect
  publish : String → JobEvent → Effect
  dead_letter : String → JobPayload → Effect
  cache_set : String → String → Effect
  copy_object : String → String → Effect
  download : String → Effect
  run_tool : String → Effect
  upload : String → Effect
  ack term : Effect
  nak : ℕ → Effect

unfoldable pub status_to_event_type : String → String
status_to_event_type status =
    if status =ₛ "processing"
    then "JobProgress"
    else if status =ₛ "completed"
    then "JobCompleted"
    else if status =ₛ "failed"
    then "JobFailed"
    else if status =ₛ "queued"
    then "JobQueued"
    else "JobProgress"

unfoldable pub subject_for_job_event : String → String → String
subject_for_job_event job type = concat "jobs.events." (concat job (concat "." type))

-- The reason is written last, so a text overrides the clearing.
unfoldable pub updates_for : String → ℕ → String → Updates
updates_for status progress reason =
    let done = status =ₛ "completed" in
    record {
      status = status;
      progress = progress;
      completed_at = done;
      failure_reason = if reason =ₛ "" then if done then clear else keep else set reason;
    }

unfoldable pub update_job_status : String → String → ℕ → String → List Effect
unfolding updates_for
update_job_status job status progress reason =
    update_job job (updates_for status progress reason) ∷ []

unfoldable pub event_for : String → String → String → ℕ → String → ℕ → JobEvent
unfolding status_to_event_type
event_for job tool status progress reason size = record {
  event_type = status_to_event_type status;
  job_id = job;
  tool_type = tool;
  progress = progress;
  failure_reason = reason;
  file_size = size;
}

-- Without JetStream nothing is published. A size that is not given is 0.
unfoldable pub publish_status_event : Bool → String → String → String → ℕ → String → ℕ → List Effect
unfolding event_for subject_for_job_event
publish_status_event false job tool status progress reason size = []
publish_status_event true job tool status progress reason size =
    publish (subject_for_job_event job (status_to_event_type status))
      (event_for job tool status progress reason size)
    ∷ []
