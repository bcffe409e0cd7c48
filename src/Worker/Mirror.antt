-- ===== src/Worker/Mirror.antt =====
-- The job's row, the events that tell of it and the settlement, side by side.
use Prim.Native.String.{◌++◌ as concat}
use fyredocs_backend.Prelude.{
  ℕ, String, Bool, true, false, ◌≡◌, refl, sym, eq_iff, ap, ◌∙◌, ◌||◌, Option, none, some, List, [],
  ◌∷◌, ◌++◌, ◌=ₛ◌, if◌then◌else◌, inl, inr, Bool-cases, Option-cases,
}
use fyredocs_backend.Worker.Effects.{
  JobPayload, Reason, keep, clear, set, Effect, subject_for_job_event, update_job, publish, ack,
  nak, status_to_event_type, update_job_status, publish_status_event, updates_for, event_for,
}
use fyredocs_backend.Worker.Outside.{WorkerConfig, Message, Outside}
use fyredocs_backend.Worker.Failure.{report, dead_letters}
use fyredocs_backend.Worker.Process.{
  is_duplicate, unless_duplicate, if_allowed, on_payload, process_message,
}
use fyredocs_backend.Worker.Attempts.{
  is_work, announce, Attempt, work, retry, give_up, finish, serve,
}
use fyredocs_backend.Worker.Protocol.{begin-announce, start-Attempt, process_message-Attempt}

-- The type of the event that is to tell of a status.
unfoldable pub type_of : String → String
type_of status =
    if status =ₛ "queued"
    then "JobQueued"
    else if status =ₛ "processing"
    then "JobProgress"
    else if status =ₛ "completed"
    then "JobCompleted"
    else if status =ₛ "failed"
    then "JobFailed"
    else ""

-- What is told of a job: its id, the subject, the event's type, the progress and the reason.
abbrev pub Line : Type 0
Line = String × String × String × ℕ × String

-- A reason that is not set is not told.
abbrev reason_of : Reason → String
reason_of keep = ""
reason_of clear = ""
reason_of (set reason) = reason

-- What is to be told of the statuses written to the row, in order.
unfoldable pub written : List Effect → List Line
unfolding type_of
written [] = []
written (update_job job u ∷ fx) =
    (
      job,
      concat "jobs.events." (concat job (concat "." (type_of u.status))),
      type_of u.status,
      u.progress,
      reason_of u.failure_reason,
    )
    ∷ written fx
written (_ ∷ fx) = written fx

-- What the events published tell, in order.
unfoldable pub told : List Effect → List Line
told [] = []
told (publish subject ev ∷ fx) =
    (ev.job_id, subject, ev.event_type, ev.progress, ev.failure_reason) ∷ told fx
told (_ ∷ fx) = told fx

Mirrors : List Effect → Type 0
Mirrors fx = told fx ≡ written fx

more : {x : Line} {l l' : List Line} → l ≡ l' → x ∷ l ≡ x ∷ l'
more {x} e = ap (λ l. x ∷ l) e

reason_of-updates :
    (status reason : String) (progress : ℕ)
    → reason_of (updates_for status progress reason).failure_reason ≡ reason
unfolding updates_for
reason_of-updates status reason progress = elim (Bool-cases (reason =ₛ "")) [
  | inl e ↦ elim (Bool-cases (status =ₛ "completed")) [
    | inl d ↦ rw (e, d) (sym ((eq_iff reason "").0 e))
    | inr d ↦ rw (e, d) (sym ((eq_iff reason "").0 e))
  ]
  | inr e ↦ rw e refl
]

module _ (cfg : WorkerConfig) (jet : cfg.has_jet_stream ≡ true) where
  work-Mirrors : (e : Effect) (fx : List Effect) → is_work e ≡ true → Mirrors fx → Mirrors (e ∷ fx)
  unfolding Mirrors written told is_work
  work-Mirrors (update_job job u) fx h m = cc
  work-Mirrors (publish subject ev) fx h m = cc
  work-Mirrors e fx h m = m

  announce-Mirrors :
      (p : JobPayload) (job status : String) (progress : ℕ) (reason : String) (size : ℕ)
      (fx : List Effect)
      → type_of status ≡ status_to_event_type status
      → Mirrors fx
      → Mirrors (announce cfg p job status progress reason size ++ fx)
  unfolding Mirrors written told announce update_job_status publish_status_event event_for
      subject_for_job_event
  announce-Mirrors p job status progress reason size fx named m =
      rw (jet, publish_status_event, reason_of-updates status reason progress, updates_for, named)
        (more m)

  report-Mirrors :
      (out : Outside) (p : JobPayload) (status reason : String) (fx : List Effect)
      → type_of status ≡ status_to_event_type status
      → Mirrors fx
      → Mirrors (report cfg out p status reason ++ fx)
  unfolding report announce
  report-Mirrors out p status reason fx named m = elim (Option-cases (out.parse_uuid p.job_id)) [
    | inl e ↦ rw (e, report) m
    | inr (job, e) ↦ rw (e, report) (announce-Mirrors p job status 0 reason 0 fx named m)
  ]

  progress_named : type_of "processing" ≡ status_to_event_type "processing"
  unfolding type_of status_to_event_type
  progress_named = refl

  failed_named : type_of "failed" ≡ status_to_event_type "failed"
  unfolding type_of status_to_event_type
  failed_named = refl

  queued_named : type_of "queued" ≡ status_to_event_type "queued"
  unfolding type_of status_to_event_type
  queued_named = refl

  completed_named : type_of "completed" ≡ status_to_event_type "completed"
  unfolding type_of status_to_event_type
  completed_named = refl

  dead_letters-Mirrors :
      (p : JobPayload) (count : ℕ) (fx : List Effect)
      → Mirrors fx
      → Mirrors (dead_letters cfg p count ++ fx)
  unfolding Mirrors told written dead_letters
  dead_letters-Mirrors p count fx m = rw (jet, dead_letters) m

  ack-Mirrors : Mirrors (ack ∷ [])
  unfolding Mirrors written told
  ack-Mirrors = refl

  Attempt-Mirrors :
      (msg : Message) (p : JobPayload) (job : String) {fx : List Effect}
      → Attempt cfg msg p job fx
      → Mirrors fx
  unfolding Mirrors written told
  Attempt-Mirrors msg p job (work {e} {fx} w a) = work-Mirrors e fx w (Attempt-Mirrors msg p job a)
  Attempt-Mirrors msg p job (retry reason d h) = announce-Mirrors p job _ _ _ _ _ queued_named refl
  Attempt-Mirrors msg p job (give_up reason) =
      announce-Mirrors p job _ _ _ _ _ failed_named (dead_letters-Mirrors p _ _ ack-Mirrors)
  Attempt-Mirrors msg p job (finish size) =
      announce-Mirrors p job _ _ _ _ _ completed_named ack-Mirrors
  Attempt-Mirrors msg p job (serve size) = announce-Mirrors p job _ _ _ _ _ completed_named refl

  id-Mirrors :
      (out : Outside) (msg : Message) (p : JobPayload) (o : Option String)
      → out.parse_uuid p.job_id ≡ o
      → Mirrors (unless_duplicate cfg out msg p o)
  unfolding unless_duplicate
  id-Mirrors out msg p none e = ack-Mirrors
  id-Mirrors out msg p (some job) e = elim (Bool-cases (is_duplicate (out.job_status job))) [
    | inl d ↦ rw (d, unless_duplicate) ack-Mirrors
    | inr f ↦
        rw (f, unless_duplicate, begin-announce cfg msg p job out e)
          (announce-Mirrors p job _ _ _ _ _ progress_named
            (Attempt-Mirrors msg p job (start-Attempt cfg msg p job out e)))
  ]

  payload-Mirrors :
      (out : Outside) (msg : Message) (o : Option JobPayload) → Mirrors (on_payload cfg out msg o)
  unfolding on_payload if_allowed
  payload-Mirrors out msg none = ack-Mirrors
  payload-Mirrors out msg (some p) = elim (Bool-cases (cfg.allowed_tools p.tool_type)) [
    | inl t ↦ rw (t, if_allowed) (id-Mirrors out msg p _ refl)
    | inr f ↦ rw (f, if_allowed) (report-Mirrors out p _ _ _ failed_named ack-Mirrors)
  ]

  -- With JetStream, the events that a delivery publishes tell, in order, of exactly the statuses that
  -- it writes to jobs' rows, whatever the message and whatever the outside answers: each under the
  -- row's job id and the subject jobs.events.<job>.<type>, with the status's own type (JobQueued,
  -- JobProgress, JobCompleted or JobFailed), the row's progress and the reason set in it.
  pub process_message-mirrored :
      (out : Outside) (msg : Message)
      → told (process_message cfg out msg) ≡ written (process_message cfg out msg)
  unfolding Mirrors process_message
  process_message-mirrored out msg = payload-Mirrors out msg msg.payload

-- The status that the row has when the delivery is settled, `status` being the one so far, fits the
-- settlement: "queued" when it will be delivered again, and an end state when it will not.
unfoldable pub ends_well : String → List Effect → Bool
ends_well status [] = false
ends_well status (update_job job u ∷ fx) = ends_well u.status fx
ends_well status (ack ∷ fx) = status =ₛ "completed" || status =ₛ "failed"
ends_well status (nak d ∷ fx) = status =ₛ "queued"
ends_well status (_ ∷ fx) = ends_well status fx

module _ (cfg : WorkerConfig) where
  work-ends_well :
      (e : Effect) (fx : List Effect) (status : String)
      → is_work e ≡ true
      → ends_well status (e ∷ fx) ≡ ends_well status fx
  unfolding ends_well is_work
  work-ends_well (update_job job u) fx status h = cc
  work-ends_well ack fx status h = cc
  work-ends_well (nak d) fx status h = cc
  work-ends_well e fx status h = refl

  announce-ends_well :
      (p : JobPayload) (job status : String) (progress : ℕ) (reason : String) (size : ℕ)
      (fx : List Effect) (before : String)
      → ends_well before (announce cfg p job status progress reason size ++ fx)
        ≡ ends_well status fx
  unfolding ends_well announce update_job_status publish_status_event updates_for
  announce-ends_well p job status progress reason size fx before =
      elim (Bool-cases cfg.has_jet_stream) [
        | inl e ↦ rw (e, publish_status_event) refl
        | inr e ↦ rw (e, publish_status_event) refl
      ]

  dead_letters-ends_well :
      (p : JobPayload) (count : ℕ) (fx : List Effect) (status : String)
      → ends_well status (dead_letters cfg p count ++ fx) ≡ ends_well status fx
  unfolding ends_well dead_letters
  dead_letters-ends_well p count fx status = elim (Bool-cases cfg.has_jet_stream) [
    | inl e ↦ rw (e, dead_letters) refl
    | inr e ↦ rw (e, dead_letters) refl
  ]

  Attempt-ends_well :
      (msg : Message) (p : JobPayload) (job : String) {fx : List Effect} (status : String)
      → Attempt cfg msg p job fx
      → ends_well status fx ≡ true
  unfolding ends_well
  Attempt-ends_well msg p job status (work {e} {fx} w a) =
      rw (work-ends_well e fx status w) (Attempt-ends_well msg p job status a)
  Attempt-ends_well msg p job status (retry reason d h) = rw (announce-ends_well p job) refl
  Attempt-ends_well msg p job status (give_up reason) =
      rw (announce-ends_well p job, dead_letters-ends_well p) refl
  Attempt-ends_well msg p job status (finish size) = rw (announce-ends_well p job) refl
  Attempt-ends_well msg p job status (serve size) = rw (announce-ends_well p job) refl

  -- When a delivery of a job that names a supported tool and a UUID and is no duplicate is settled,
  -- the last status written is "queued" if it will be delivered again, and "completed" or "failed"
  -- if it is acknowledged, whatever the outside answers.
  pub process_message-ends_well :
      (out : Outside) (msg : Message) (p : JobPayload) (job status : String)
      → msg.payload ≡ some p
      → cfg.allowed_tools p.tool_type ≡ true
      → out.parse_uuid p.job_id ≡ some job
      → is_duplicate (out.job_status job) ≡ false
      → ends_well status (process_message cfg out msg) ≡ true
  process_message-ends_well out msg p job status loads allowed id_ok fresh =
      let (fx, e, a) = process_message-Attempt cfg msg p job out id_ok loads allowed fresh in
      ap (ends_well status) e
      ∙ announce-ends_well p job _ _ _ _ fx status
      ∙ Attempt-ends_well msg p job "processing" a
