-- ===== src/Worker/Attempts.antt =====
-- The grammar of an attempt at a job: the effects that a delivery may have.
use fyredocs_backend.Prelude.{
  ℕ, ◌<◌, String, Bool, true, false, ◌≡◌, refl, inl, inr, ◌=ₛ◌, List, [], ◌∷◌, ◌++◌, Bool-cases,
}
use fyredocs_backend.Worker.Cache.{merge}
use fyredocs_backend.Worker.Effects.{
  JobPayload, Effect, update_job, clear_failure, publish, dead_letter, ack, term, nak,
  update_job_status, publish_status_event,
}
use fyredocs_backend.Worker.Outside.{WorkerConfig, Message}
use fyredocs_backend.Worker.Failure.{dead_letters, delivery_count}

-- Effects on files, objects, rows and the cache: all but statuses, events and settlements.
unfoldable pub is_work : Effect → Bool
is_work (update_job job u) = false
is_work (clear_failure job) = false
is_work (publish subject ev) = false
is_work (dead_letter subject q) = false
is_work ack = false
is_work term = false
is_work (nak d) = false
is_work _ = true

-- A status and the event that tells of it.
unfoldable pub announce : WorkerConfig → JobPayload → String → String → ℕ → String → ℕ → List Effect
announce cfg p job status progress reason size =
    update_job_status job status progress reason
    ++ publish_status_event cfg.has_jet_stream job p.tool_type status progress reason size

module _ (cfg : WorkerConfig) (msg : Message) (p : JobPayload) (job : String) where
  -- An attempt: work, then one of four endings.
  pub data Attempt : List Effect → Type 0 where
    work : {e : Effect} {fx : List Effect} → is_work e ≡ true → Attempt fx → Attempt (e ∷ fx)
    retry :
        (reason : String) (delay : ℕ)
        → delivery_count msg < 4
        → Attempt (announce cfg p job "queued" 0 reason 0 ++ nak delay ∷ [])
    give_up :
        (reason : String)
        → Attempt (
            announce cfg p job "failed" 0 reason 0
            ++ (dead_letters cfg p (delivery_count msg) ++ ack ∷ []))
    finish : (size : ℕ) → Attempt (announce cfg p job "completed" 100 "" size ++ ack ∷ [])
    serve :
        (size : ℕ)
        → Attempt (announce cfg p job "completed" 100 "" size ++ clear_failure job ∷ ack ∷ [])

  -- Merging metadata is work.
  pub merge-Attempt :
      (metadata : String) (fx : List Effect) → Attempt fx → Attempt (merge job metadata ++ fx)
  unfolding merge is_work
  merge-Attempt metadata fx a = elim (Bool-cases (metadata =ₛ "")) [
    | inl e ↦ rw (e, merge) a
    | inr e ↦ rw (e, merge) (work refl a)
  ]
