-- ===== src/Worker/Failure.antt =====
-- Classification of errors, back-off, and the end of a failed attempt (`classifyError`,
-- `friendlyMessage`, `backoffDuration`, `isRecoverable` and `handleFailure` of worker.go).
use Prim.Native.String.{◌++◌ as concat}
use text.Mathlib.Text.{starts_with}
use fyredocs_backend.Prelude.{
  ℕ, zero, suc, ◌-◌, String, Bool, ◌||◌, ◌&&◌, none, some, List, [], ◌∷◌, ◌++◌, ltb, ◌=ₛ◌,
  if◌then◌else◌,
}
use fyredocs_backend.Worker.Effects.{
  JobPayload, Effect, dead_letter, ack, nak, update_job_status, publish_status_event,
}
use fyredocs_backend.Worker.Outside.{GoError, WorkerConfig, Message, Outside}

-- `strings.Contains`
unfoldable pub contains : String → String → Bool
contains String.[] t = t =ₛ ""
contains (String.◌∷◌ c s) t = starts_with (String.◌∷◌ c s) t || contains s t

pub data ErrorCode : Type 0 where
  unsupported_tool conversion_failed timeout : ErrorCode

unfoldable pub classify_error : GoError → ErrorCode
unfolding contains
classify_error e =
    if contains e.text "timeout" || contains e.text "deadline exceeded"
    then timeout
    else conversion_failed

unfoldable pub friendly_message : ErrorCode → String
friendly_message timeout =
    "This file took too long to process. Please try again, or use a smaller file."
friendly_message unsupported_tool = "This operation isn't supported for this file."
friendly_message conversion_failed =
    "We couldn't process this file. It may be corrupted, password-protected, or in an unsupported format. Please try a different file."

unfoldable pub is_recoverable : GoError → Bool
unfolding contains
is_recoverable e =
    e.marked || contains e.text "status=5" || contains e.text "status=429" || e.has_timeout

-- Seconds. An attempt below 0 counts as 0, and those past the table as its last.
unfoldable pub backoff_duration : ℕ → ℕ
backoff_duration zero = 10
backoff_duration (suc zero) = 30
backoff_duration (suc (suc n)) = 120

unfoldable pub delivery_count : Message → ℕ
delivery_count msg = elim msg.num_delivered [ none ↦ 1 | some n ↦ n ]

-- The status of a job and the event that tells of it, if the id is a UUID.
unfoldable pub report : WorkerConfig → Outside → JobPayload → String → String → List Effect
unfolding update_job_status publish_status_event
report cfg out p status reason = elim (out.parse_uuid p.job_id) [
  | none ↦ []
  | some job ↦
      update_job_status job status 0 reason
      ++ publish_status_event cfg.has_jet_stream job p.tool_type status 0 reason 0
]

-- The payload goes to the dead letters with the delivery count as its attempts.
unfoldable pub dead_letters : WorkerConfig → JobPayload → ℕ → List Effect
dead_letters cfg p count =
    if cfg.has_jet_stream
    then dead_letter (concat "jobs.dlq." cfg.service_name)
        (record p { event_type = "JobFailed"; attempts = count })
      ∷ []
    else []

-- MaxDeliver is 4: the first delivery and three more.
unfoldable pub handle_failure :
    WorkerConfig → Outside → Message → JobPayload → GoError → List Effect
handle_failure cfg out msg p e =
    let count = delivery_count msg in
    if is_recoverable e && ltb count 4
    then report cfg out p "queued" (concat "retrying: " e.text)
      ++ nak (backoff_duration (count - 1)) ∷ []
    else report cfg out p "failed" (friendly_message (classify_error e))
      ++ (dead_letters cfg p count ++ ack ∷ [])
