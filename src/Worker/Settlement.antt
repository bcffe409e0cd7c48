-- ===== src/Worker/Settlement.antt =====
-- Every delivery is settled once, at its end.
use fyredocs_backend.Prelude.{
  ℕ, ◌≤◌, ◌<◌, String, Bool, true, false, ◌≡◌, refl, ◌&&◌, Option, none, some, List, [], ◌∷◌, ◌++◌,
  is_empty, ◌=ₛ◌, if◌then◌else◌, arith, inl, inr, Bool-cases, Option-cases,
}
use fyredocs_backend.Worker.Effects.{
  JobPayload, Effect, ack, nak, term, update_job_status, publish_status_event,
}
use fyredocs_backend.Worker.Outside.{WorkerConfig, Message, Outside}
use fyredocs_backend.Worker.Failure.{report, dead_letters, delivery_count}
use fyredocs_backend.Worker.Process.{
  is_duplicate, unless_duplicate, if_allowed, on_payload, process_message, recovered,
  recovered_from,
}
use fyredocs_backend.Worker.Attempts.{
  is_work, announce, Attempt, work, retry, give_up, finish, serve,
}
use fyredocs_backend.Worker.Protocol.{begin-announce, start-Attempt}

unfoldable pub is_settlement : Effect → Bool
is_settlement ack = true
is_settlement (nak d) = true
is_settlement term = true
is_settlement _ = false

-- An acknowledgement, or a negative one.
unfoldable pub is_answer : Effect → Bool
is_answer ack = true
is_answer (nak d) = true
is_answer _ = false

-- The effects end with a settlement that passes the test, and have no other.
unfoldable pub settles : (Effect → Bool) → List Effect → Bool
unfolding is_settlement
settles test [] = false
settles test (e ∷ fx) =
    let rest = settles test fx in if is_settlement e then test e && is_empty fx else rest

module _ (test : Effect → Bool) where
  settles-work :
      (e : Effect) (fx : List Effect) → is_work e ≡ true → settles test (e ∷ fx) ≡ settles test fx
  unfolding settles is_work
  settles-work ack fx h = cc
  settles-work (nak d) fx h = cc
  settles-work term fx h = cc
  settles-work e fx h = refl

  settles-announce :
      (cfg : WorkerConfig) (p : JobPayload) (job status : String) (progress : ℕ) (reason : String)
      (size : ℕ) (fx : List Effect)
      → settles test (announce cfg p job status progress reason size ++ fx) ≡ settles test fx
  unfolding settles announce update_job_status publish_status_event
  settles-announce cfg p job status progress reason size fx = elim (Bool-cases cfg.has_jet_stream) [
    | inl e ↦ rw (e, publish_status_event) refl
    | inr e ↦ rw (e, publish_status_event) refl
  ]

  settles-report :
      (cfg : WorkerConfig) (out : Outside) (p : JobPayload) (status reason : String)
      (fx : List Effect)
      → settles test (report cfg out p status reason ++ fx) ≡ settles test fx
  unfolding report announce
  settles-report cfg out p status reason fx = elim (Option-cases (out.parse_uuid p.job_id)) [
    | inl e ↦ rw (e, report) refl
    | inr (job, e) ↦ rw (e, report) (settles-announce cfg p job status 0 reason 0 fx)
  ]

  settles-dead_letters :
      (cfg : WorkerConfig) (p : JobPayload) (count : ℕ) (fx : List Effect)
      → settles test (dead_letters cfg p count ++ fx) ≡ settles test fx
  unfolding settles dead_letters
  settles-dead_letters cfg p count fx = elim (Bool-cases cfg.has_jet_stream) [
    | inl e ↦ rw (e, dead_letters) refl
    | inr e ↦ rw (e, dead_letters) refl
  ]

module _ (test : Effect → Bool) (cfg : WorkerConfig) (msg : Message) (acks : test ack ≡ true)
    (retries : delivery_count msg < 4 → (d : ℕ) → test (nak d) ≡ true) where
  settles-Attempt :
      (p : JobPayload) (job : String) {fx : List Effect}
      → Attempt cfg msg p job fx
      → settles test fx ≡ true
  unfolding settles
  settles-Attempt p job (work {e} {fx} w a) =
      rw (settles-work test e fx w) (settles-Attempt p job a)
  settles-Attempt p job (retry reason d h) = rw (settles-announce test) (rw (retries h d) refl)
  settles-Attempt p job (give_up reason) =
      rw (settles-announce test, settles-dead_letters test, acks) refl
  settles-Attempt p job (finish size) = rw (settles-announce test, acks) refl
  settles-Attempt p job (serve size) = rw (settles-announce test, acks) refl

  id_settles :
      (out : Outside) (p : JobPayload) (o : Option String)
      → out.parse_uuid p.job_id ≡ o
      → settles test (unless_duplicate cfg out msg p o) ≡ true
  unfolding unless_duplicate settles
  id_settles out p none e = rw acks refl
  id_settles out p (some job) e = elim (Bool-cases (is_duplicate (out.job_status job))) [
    | inl d ↦ rw (d, unless_duplicate, acks) refl
    | inr f ↦
        rw (f, unless_duplicate, begin-announce cfg msg p job out e, settles-announce test)
          (settles-Attempt p job (start-Attempt cfg msg p job out e))
  ]

  payload_settles :
      (out : Outside) (o : Option JobPayload) → settles test (on_payload cfg out msg o) ≡ true
  unfolding on_payload if_allowed settles
  payload_settles out none = rw acks refl
  payload_settles out (some p) = elim (Bool-cases (cfg.allowed_tools p.tool_type)) [
    | inl t ↦ rw (t, if_allowed) (id_settles out p _ refl)
    | inr f ↦ rw (f, if_allowed, settles-report test, acks) refl
  ]

-- Whatever the message and whatever the outside answers, the effects of a delivery end with an
-- acknowledgement or a negative one, and have no other.
pub process_message-settles_once :
    (cfg : WorkerConfig) (out : Outside) (msg : Message)
    → settles is_answer (process_message cfg out msg) ≡ true
unfolding process_message is_answer
process_message-settles_once cfg out msg =
    payload_settles is_answer cfg msg refl (λ h d. refl) out msg.payload

unfoldable pub is_ack : Effect → Bool
is_ack ack = true
is_ack _ = false

-- Whatever the message and whatever the outside answers, a delivery that is the fourth or a later
-- one is settled once, at its end, and by an acknowledgement: it is not delivered again.
pub process_message-acks_last :
    (cfg : WorkerConfig) (out : Outside) (msg : Message)
    → 4 ≤ delivery_count msg
    → settles is_ack (process_message cfg out msg) ≡ true
unfolding process_message is_ack
process_message-acks_last cfg out msg last =
    payload_settles is_ack cfg msg refl (λ h d. ground arith) out msg.payload

recovered_from-settles :
    (cfg : WorkerConfig) (out : Outside) (payload : Option JobPayload)
    → settles is_settlement (recovered_from cfg out payload) ≡ true
unfolding settles is_settlement recovered_from
recovered_from-settles cfg out none = refl
recovered_from-settles cfg out (some p) = elim (Bool-cases (p.job_id =ₛ "")) [
  | inl e ↦ rw (e, recovered_from) refl
  | inr e ↦ rw (e, recovered_from) (settles-report is_settlement cfg out p "failed" _ (term ∷ []))
]

-- What is left to do after a panic has one settlement, at its end.
recovered-settles :
    (cfg : WorkerConfig) (out : Outside) (msg : Message)
    → settles is_settlement (recovered cfg out msg) ≡ true
unfolding recovered
recovered-settles cfg out msg = recovered_from-settles cfg out msg.payload
