-- ===== src/Worker/Protocol.antt =====
-- The worker keeps to the grammar of attempts.
use fyredocs_backend.Prelude.{
  ℕ, String, Bool, true, false, ◌&&◌, ◌≡◌, refl, ap, ◌∙◌, inl, inr, Option, none, some,
  Option-cases, List, [], ◌∷◌, ◌++◌, ltb, arith, Bool-cases,
}
use fyredocs_backend.Prelude.Int.{ℤ, gtb_ℤ}
use fyredocs_backend.Worker.Scratch.{
  tmpfs_budget_bytes, large_job_threshold_bytes, projected_footprint, total_input_size,
}
use fyredocs_backend.Worker.Cache.{record_output, completed, try_serve_from_cache}
use fyredocs_backend.Worker.Process.{
  mark_recoverable, store_in_cache, after_upload, after_tool, run, after_fetch, fetch, take_slot,
  guard_space, convert, after_cache, start, begin, is_duplicate, unless_duplicate, if_allowed,
  process_message, on_payload,
}
use fyredocs_backend.Worker.Effects.{
  download, JobPayload, Effect, update_job_status, publish_status_event,
}
use fyredocs_backend.Worker.Outside.{
  GoError, Try, done, fails, ProcessResult, WorkerConfig, Message, Outside,
}
use fyredocs_backend.Worker.Failure.{report, delivery_count, handle_failure, is_recoverable}
use fyredocs_backend.Worker.Attempts.{
  is_work, announce, Attempt, work, retry, give_up, finish, merge-Attempt,
}
use fyredocs_backend.Worker.Served.{Served, cached_hit-Served}

module _ (cfg : WorkerConfig) (msg : Message) (p : JobPayload) (job : String) where
  module _ (out : Outside) (id_ok : out.parse_uuid p.job_id ≡ some job) where
    report-announce :
        (status reason : String)
        → report cfg out p status reason ≡ announce cfg p job status 0 reason 0
    unfolding report announce
    report-announce status reason = rw (id_ok, report) refl

    handle_failure-Attempt : (e : GoError) → Attempt cfg msg p job (handle_failure cfg out msg p e)
    unfolding handle_failure
    handle_failure-Attempt e = elim (Bool-cases (is_recoverable e && ltb (delivery_count msg) 4)) [
      | inl t ↦ rw (t, report-announce) (retry _ _ (ground arith))
      | inr t ↦ rw (t, report-announce) (give_up _)
    ]

    module _ (key : Option String) where
      store_in_cache-Attempt :
          (name : String) (fx : List Effect)
          → Attempt cfg msg p job fx
          → Attempt cfg msg p job (store_in_cache cfg out msg p job key name ++ fx)
      unfolding store_in_cache is_work
      store_in_cache-Attempt name fx a = elim (Option-cases key) [
        | inl e ↦ rw (e, store_in_cache) a
        | inr (k, e) ↦ rw (e, store_in_cache) (work refl a)
      ]

      after_upload-Attempt :
          (r : ProcessResult) (dst : String) (size : ℕ) (t : Try (Unit {0}))
          → Attempt cfg msg p job (after_upload cfg out msg p job key r dst size t)
      unfolding after_upload record_output is_work completed announce
      after_upload-Attempt r dst size (fails e) = work refl (handle_failure-Attempt e)
      after_upload-Attempt r dst size (done _) = work refl (
          work refl
            (merge-Attempt cfg msg p job r.metadata _ (store_in_cache-Attempt dst _ (finish size))))

      after_tool-Attempt :
          (r : ProcessResult) (t : Try ℕ)
          → Attempt cfg msg p job (after_tool cfg out msg p job key r t)
      unfolding after_tool is_work
      after_tool-Attempt r (fails e) = handle_failure-Attempt (mark_recoverable e)
      after_tool-Attempt r (done size) = work refl (after_upload-Attempt r _ size _)

      run-Attempt : (t : Try ProcessResult) → Attempt cfg msg p job (run cfg out msg p job key t)
      unfolding run is_work
      run-Attempt (fails e) = work refl (handle_failure-Attempt e)
      run-Attempt (done r) = work refl (after_tool-Attempt r _)

      after_fetch-Attempt :
          (t : Try (Unit {0})) → Attempt cfg msg p job (after_fetch cfg out msg p job key t)
      unfolding after_fetch
      after_fetch-Attempt (fails e) = handle_failure-Attempt (mark_recoverable e)
      after_fetch-Attempt (done _) = run-Attempt _

      fetched-Attempt :
          (k : String) (t : Try (Unit {0})) (rest : List Effect)
          → Attempt cfg msg p job rest
          → Attempt cfg msg p job (elim t [
            | fails e ↦ handle_failure cfg out msg p (mark_recoverable e)
            | done _ ↦ download k ∷ rest
          ])
      unfolding is_work
      fetched-Attempt k (fails e) rest a = handle_failure-Attempt (mark_recoverable e)
      fetched-Attempt k (done _) rest a = work refl a

      fetch-Attempt : (ks : List String) → Attempt cfg msg p job (fetch cfg out msg p job key ks)
      unfolding fetch
      fetch-Attempt [] = after_fetch-Attempt out.make_out_dir
      fetch-Attempt (k ∷ ks) = fetched-Attempt k (out.fetch_input k) _ (fetch-Attempt ks)

      slot-Attempt :
          (t : Try (Unit {0}))
          → Attempt cfg msg p job (elim t [
            | fails e ↦ handle_failure cfg out msg p (mark_recoverable e)
            | done _ ↦ fetch cfg out msg p job key p.input_paths
          ])
      slot-Attempt (fails e) = handle_failure-Attempt (mark_recoverable e)
      slot-Attempt (done _) = fetch-Attempt p.input_paths

      take_slot-Attempt :
          (total : ℤ) → Attempt cfg msg p job (take_slot cfg out msg p job key total)
      unfolding take_slot
      take_slot-Attempt total =
          elim (Bool-cases (gtb_ℤ total (large_job_threshold_bytes out.env))) [
            | inl e ↦ rw (e, take_slot) (slot-Attempt out.take_large_slot)
            | inr e ↦ rw (e, take_slot) (fetch-Attempt p.input_paths)
          ]

      guard_space-Attempt :
          (t : Try ℤ) → Attempt cfg msg p job (guard_space cfg out msg p job key t)
      unfolding guard_space
      guard_space-Attempt (fails e) = handle_failure-Attempt (mark_recoverable e)
      guard_space-Attempt (done total) =
          elim (Bool-cases
            (gtb_ℤ (projected_footprint out.env total) (tmpfs_budget_bytes out.env))) [
              | inl e ↦ rw (e, guard_space) (handle_failure-Attempt _)
              | inr e ↦ rw (e, guard_space) (take_slot-Attempt total)
            ]

      scratch-Attempt :
          (t : Try (Unit {0}))
          → Attempt cfg msg p job (elim t [
            | fails e ↦ handle_failure cfg out msg p (mark_recoverable e)
            | done _ ↦ guard_space cfg out msg p job key (total_input_size out p.input_paths)
          ])
      scratch-Attempt (fails e) = handle_failure-Attempt (mark_recoverable e)
      scratch-Attempt (done _) = guard_space-Attempt _

      convert-Attempt : Attempt cfg msg p job (convert cfg out msg p job key)
      unfolding convert
      convert-Attempt = scratch-Attempt out.make_scratch

    after_cache-Attempt :
        (key : String) (r : Bool × List Effect)
        → Served cfg msg p job r
        → Attempt cfg msg p job (after_cache cfg out msg p job key r)
    unfolding after_cache Served
    after_cache-Attempt key (true, fx) v = v
    after_cache-Attempt key (false, fx) v = v _ (convert-Attempt (some key))

    etags-Attempt :
        (o : Option (List String))
        → Attempt cfg msg p job (elim o [
          | none ↦ convert cfg out msg p job none
          | some etags ↦
              let key = out.cache_key p.tool_type p.options etags in
              after_cache cfg out msg p job key (try_serve_from_cache cfg out key p job)
        ])
    unfolding try_serve_from_cache
    etags-Attempt none = convert-Attempt none
    etags-Attempt (some etags) = after_cache-Attempt _ _ (cached_hit-Served cfg msg p job out _)

    pub start-Attempt : Attempt cfg msg p job (start cfg out msg p job)
    unfolding start
    start-Attempt = elim (Bool-cases (cfg.has_redis && ltb 0 out.cache_ttl)) [
      | inl e ↦ rw (e, start) (etags-Attempt (out.input_etags p.input_paths))
      | inr e ↦ rw (e, start) (convert-Attempt none)
    ]

    pub begin-announce :
        begin cfg out msg p job ≡ announce cfg p job "processing" 20 "" 0 ++ start cfg out msg p job
    unfolding begin announce update_job_status publish_status_event
    begin-announce = refl

    allowed_attempt :
        cfg.allowed_tools p.tool_type ≡ true
        → is_duplicate (out.job_status job) ≡ false
        → if_allowed cfg out msg p
          ≡ announce cfg p job "processing" 20 "" 0 ++ start cfg out msg p job
    unfolding if_allowed unless_duplicate
    allowed_attempt allowed fresh =
        rw (allowed, if_allowed, id_ok, unless_duplicate, fresh, unless_duplicate) begin-announce

    -- The worker keeps to the protocol: a delivery of a job that names a supported tool and a UUID
    -- and is no duplicate announces that the job is processing, and then makes an attempt that is
    -- work and one of the four endings.
    pub process_message-Attempt :
        msg.payload ≡ some p
        → cfg.allowed_tools p.tool_type ≡ true
        → is_duplicate (out.job_status job) ≡ false
        → (fx : List Effect) × (process_message cfg out msg
            ≡ announce cfg p job "processing" 20 "" 0 ++ fx)
          × Attempt cfg msg p job fx
    unfolding process_message on_payload
    process_message-Attempt loads allowed fresh = (
      start cfg out msg p job,
      ap (on_payload cfg out msg) loads ∙ allowed_attempt allowed fresh,
      start-Attempt,
    )
