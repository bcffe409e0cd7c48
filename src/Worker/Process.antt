-- ===== src/Worker/Process.antt =====
-- One delivered message from its start to its settlement (`processMessage` of worker.go). Each
-- function below is the handler from one of its steps on.
use Prim.Native.String.{◌++◌ as concat}
use fyredocs_backend.Prelude.{
  ℕ, String, Bool, true, false, ◌&&◌, ◌||◌, Option, none, some, List, [], ◌∷◌, ◌++◌, ltb, ◌=ₛ◌,
  if◌then◌else◌,
}
use fyredocs_backend.Prelude.Int.{ℤ, gtb_ℤ, quotient}
use fyredocs_backend.Text.Decimal.{itoa_int}
use fyredocs_backend.Store.{Result, ok, err}
use fyredocs_backend.Worker.Effects.{
  JobPayload, Effect, cache_set, delete_output, download, run_tool, upload, ack, term,
  update_job_status, publish_status_event,
}
use fyredocs_backend.Worker.Outside.{
  GoError, Try, done, fails, ProcessResult, WorkerConfig, Message, Outside,
}
use fyredocs_backend.Worker.Failure.{unsupported_tool, friendly_message, report, handle_failure}
use fyredocs_backend.Worker.Scratch.{
  bytes_per_mib, tmpfs_budget_bytes, large_job_threshold_bytes, projected_footprint,
  total_input_size,
}
use fyredocs_backend.Worker.Cache.{
  merge, record_output, completed, output_key, try_serve_from_cache,
}

unfoldable pub mark_recoverable : GoError → GoError
mark_recoverable e = record e { marked = true }

unfoldable pub too_large : ℤ → ℤ → GoError
too_large projected budget = record {
  text = concat "job too large for worker scratch space: projected " (
      concat (itoa_int (quotient projected bytes_per_mib)) (
        concat " MiB exceeds budget " (
          concat (itoa_int (quotient budget bytes_per_mib))
            " MiB (increase TMPFS_BUDGET_MB and the tmpfs mount, or route to a larger worker)")));
  marked = false;
  has_timeout = false;
}

-- The status that makes a delivery a duplicate.
unfoldable pub is_duplicate : Result String → Bool
is_duplicate (err e) = false
is_duplicate (ok status) = status =ₛ "completed" || status =ₛ "processing"

module _ (cfg : WorkerConfig) (out : Outside) (msg : Message) (p : JobPayload) where
  -- The job's UUID, and the result cache's key if the job may be cached.
  module _ (job : String) (key : Option String) where
    unfoldable pub store_in_cache : String → List Effect
    store_in_cache name = elim key [ none ↦ [] | some k ↦ cache_set k name ∷ [] ]

    -- Lines 342 to 364.
    unfoldable pub after_upload : ProcessResult → String → ℕ → Try (Unit {0}) → List Effect
    after_upload r dst size (fails e) = delete_output job ∷ handle_failure cfg out msg p e
    after_upload r dst size (done _) =
        record_output job dst size
        ++ (merge job r.metadata ++ (store_in_cache dst ++ (completed cfg p job size ++ ack ∷ [])))

    -- Lines 332 to 364.
    unfoldable pub after_tool : ProcessResult → Try ℕ → List Effect
    after_tool r (fails e) = handle_failure cfg out msg p (mark_recoverable e)
    after_tool r (done size) =
        let dst = output_key p.job_id r.output_name in
        upload dst ∷ after_upload r dst size (out.create_output_row dst size)

    -- Lines 326 to 364.
    unfoldable pub run : Try ProcessResult → List Effect
    run (fails e) = run_tool job ∷ handle_failure cfg out msg p e
    run (done r) =
        run_tool job ∷ after_tool r (out.upload_output (output_key p.job_id r.output_name))

    -- Lines 316 to 364.
    unfoldable pub after_fetch : Try (Unit {0}) → List Effect
    after_fetch (fails e) = handle_failure cfg out msg p (mark_recoverable e)
    after_fetch (done _) = run (out.process p.tool_type p.input_paths p.options)

    -- Lines 309 to 364: the inputs in turn, the first failure ends the loop.
    unfoldable pub fetch : List String → List Effect
    fetch [] = after_fetch out.make_out_dir
    fetch (k ∷ ks) =
        let rest = fetch ks in
        elim (out.fetch_input k) [
          | fails e ↦ handle_failure cfg out msg p (mark_recoverable e)
          | done _ ↦ download k ∷ rest
        ]

    -- Lines 299 to 364.
    unfoldable pub take_slot : ℤ → List Effect
    take_slot total =
        if gtb_ℤ total (large_job_threshold_bytes out.env)
        then elim out.take_large_slot [
          | fails e ↦ handle_failure cfg out msg p (mark_recoverable e)
          | done _ ↦ fetch p.input_paths
        ]
        else fetch p.input_paths

    -- Lines 289 to 364.
    unfoldable pub guard_space : Try ℤ → List Effect
    guard_space (fails e) = handle_failure cfg out msg p (mark_recoverable e)
    guard_space (done total) =
        let projected = projected_footprint out.env total in
        let budget = tmpfs_budget_bytes out.env in
        if gtb_ℤ projected budget
        then handle_failure cfg out msg p (too_large projected budget)
        else take_slot total

    -- Lines 277 to 364.
    unfoldable pub convert : List Effect
    convert = elim out.make_scratch [
      | fails e ↦ handle_failure cfg out msg p (mark_recoverable e)
      | done _ ↦ guard_space (total_input_size out p.input_paths)
    ]

  -- What the cache did, and the rest: an acknowledgement if it served the job.
  unfoldable pub after_cache : String → String → Bool × List Effect → List Effect
  after_cache job key (true, fx) = fx ++ ack ∷ []
  after_cache job key (false, fx) = fx ++ convert job (some key)

  -- Lines 258 to 364.
  unfoldable pub start : String → List Effect
  start job =
      if cfg.has_redis && ltb 0 out.cache_ttl
      then elim (out.input_etags p.input_paths) [
        | none ↦ convert job none
        | some etags ↦
            let key = out.cache_key p.tool_type p.options etags in
            after_cache job key (try_serve_from_cache cfg out key p job)
      ]
      else convert job none

  -- Lines 245 to 364.
  unfoldable pub begin : String → List Effect
  begin job =
      update_job_status job "processing" 20 ""
      ++ (publish_status_event cfg.has_jet_stream job p.tool_type "processing" 20 "" 0 ++ start job)

  -- Lines 228 to 364.
  unfoldable pub unless_duplicate : Option String → List Effect
  unless_duplicate none = ack ∷ []
  unless_duplicate (some job) = if is_duplicate (out.job_status job) then ack ∷ [] else begin job

  -- Lines 216 to 364.
  unfoldable pub if_allowed : List Effect
  if_allowed =
      if cfg.allowed_tools p.tool_type
      then unless_duplicate (out.parse_uuid p.job_id)
      else report cfg out p "failed" (friendly_message unsupported_tool) ++ ack ∷ []

unfoldable pub on_payload : WorkerConfig → Outside → Message → Option JobPayload → List Effect
on_payload cfg out msg none = ack ∷ []
on_payload cfg out msg (some p) = if_allowed cfg out msg p

unfoldable pub process_message : WorkerConfig → Outside → Message → List Effect
process_message cfg out msg = on_payload cfg out msg msg.payload

-- What `Run` does when `processMessage` has panicked (its deferred function): besides what that has
-- done so far, the job is marked as failed if the payload names one, and the message is terminated.
unfoldable pub recovered_from : WorkerConfig → Outside → Option JobPayload → List Effect
recovered_from cfg out none = term ∷ []
recovered_from cfg out (some p) =
    let told =
      report cfg out p "failed" "Processing failed unexpectedly. Please try again." ++ term ∷ [] in
    if p.job_id =ₛ "" then term ∷ [] else told

unfoldable pub recovered : WorkerConfig → Outside → Message → List Effect
unfolding recovered_from
recovered cfg out msg = recovered_from cfg out msg.payload
