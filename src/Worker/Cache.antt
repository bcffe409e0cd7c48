-- ===== src/Worker/Cache.antt =====
-- Serving a job from a cached result (`tryServeFromCache` of worker.go, `inputETags` and
-- `buildCacheKey` of cache.go as answers of the outside).
use Prim.Native.String.{◌++◌ as concat}
use fyredocs_backend.Prelude.{
  ℕ, String, Bool, true, false, Option, none, some, List, [], ◌∷◌, ◌++◌, ◌=ₛ◌, if◌then◌else◌,
}
use fyredocs_backend.Store.Objects.{ObjectInfo}
use fyredocs_backend.Text.Paths.{base}
use fyredocs_backend.Worker.Effects.{
  JobPayload, Effect, clear_failure, merge_metadata, create_output, delete_output, copy_object,
  update_job_status, publish_status_event,
}
use fyredocs_backend.Worker.Outside.{Try, done, fails, CachedResult, WorkerConfig, Outside}

-- `mergeMetadata`: nothing is merged for nil.
unfoldable pub merge : String → String → List Effect
merge job metadata = if metadata =ₛ "" then [] else merge_metadata job metadata ∷ []

-- `recordOutput` on a key that is not empty: an earlier row is deleted, then the new one created.
unfoldable pub record_output : String → String → ℕ → List Effect
record_output job key size = delete_output job ∷ create_output job key size ∷ []

unfoldable pub completed : WorkerConfig → JobPayload → String → ℕ → List Effect
completed cfg p job size =
    update_job_status job "completed" 100 ""
    ++ publish_status_event cfg.has_jet_stream job p.tool_type "completed" 100 "" size

unfoldable pub output_key : String → String → String
output_key job name = concat "jobs/" (concat job (concat "/" name))

-- The row could be written, or not.
unfoldable pub cached_row :
    WorkerConfig
    → JobPayload
    → String
    → CachedResult
    → String
    → ℕ
    → Try (Unit {0})
    → Bool × List Effect
cached_row cfg p job cv dst size (fails e) =
    (false, copy_object cv.output_key dst ∷ delete_output job ∷ [])
cached_row cfg p job cv dst size (done _) = (
  true,
  copy_object cv.output_key dst
      ∷ (record_output job dst size
          ++ (merge job cv.metadata ++ (completed cfg p job size ++ clear_failure job ∷ []))),
)

unfoldable pub cached_copy :
    WorkerConfig → Outside → JobPayload → String → CachedResult → ObjectInfo → Bool × List Effect
cached_copy cfg out p job cv info =
    let dst = output_key p.job_id (base cv.output_key) in
    if out.copy_output cv.output_key dst
    then cached_row cfg p job cv dst info.size (out.create_output_row dst info.size)
    else (false, [])

unfoldable pub cached_hit :
    WorkerConfig → Outside → JobPayload → String → Option CachedResult → Bool × List Effect
cached_hit cfg out p job none = (false, [])
cached_hit cfg out p job (some cv) =
    if cv.output_key =ₛ "" then (false, []) else elim (out.stat_output cv.output_key) [
      | none ↦ (false, [])
      | some info ↦ cached_copy cfg out p job cv info
    ]

-- Whether the job is completed, and what has been done.
unfoldable pub try_serve_from_cache :
    WorkerConfig → Outside → String → JobPayload → String → Bool × List Effect
try_serve_from_cache cfg out key p job = cached_hit cfg out p job (out.cache_get key)
