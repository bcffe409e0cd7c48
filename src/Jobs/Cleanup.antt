-- ===== src/Jobs/Cleanup.antt =====
-- The sweep that reaps expired jobs and upload sessions (job-service/internal/cleanup/cleanup.go).
-- Times are instants in seconds; failures that the sweep only logs are dropped.
pub mod Completes
pub mod Spares
use Prim.Native.String.{◌++◌ as concat}
use text.Mathlib.Text.{starts_with}
use fyredocs_backend.Prelude.{
  ℕ, zero, suc, ◌-◌, ◌*◌, String, Bool, true, false, ltb, ◌=ₛ◌, if◌then◌else◌, is_empty, length,
  Option, none, some, List, [], ◌∷◌,
}
use fyredocs_backend.Store.{Result, ok, err}
use fyredocs_backend.Store.Redis.{Redis, Fields}
use fyredocs_backend.Store.Objects.{Objects}
use fyredocs_backend.Uploads.Session.{field}
use fyredocs_backend.Auth.Accounts.{contains}
use fyredocs_backend.Jobs.Access.{FileMetadata}

pub record IncompleteUpload : Type 0 where
  pub key : String
  pub upload_id : String

-- The queries and statements of the sweep, `scan` of the keys under a prefix, and the store's
-- listing. `parse_time` is `time.Parse` of RFC 3339. A deletion that fails leaves what it likes.
pub record SweepBackend (W : Type 0) : Type 0 where
  pub redis : Redis W
  pub store : Objects W
  pub scan : W → String → List String
  pub find_expired : W → ℕ → ℕ → Result (List String)
  pub files_of : W → List String → Result (List FileMetadata)
  pub delete_files : List String → W → W
  pub delete_jobs : List String → W → W
  pub count_paths : W → String → Result ℕ
  pub list_incomplete : W → String → ℕ → Result (List IncompleteUpload)
  pub backfill_expiry : ℕ → W → W
  pub parse_time : String → Option ℕ
  pub upload_ttl : ℕ
  pub stale_age : ℕ
  pub free_job_ttl : ℕ

abbrev pub cleanup_lock_key : String
cleanup_lock_key = "cleanup-worker:lock"

-- Seconds.
abbrev pub lock_ttl : ℕ
lock_ttl = 600

abbrev pub batch_size : ℕ
batch_size = 100

module _ {W : Type 0} (b : SweepBackend W) where
  -- The script: compare, and delete.
  unfoldable pub release_if : String → Result String → W → W
  release_if token (err e) w = w
  release_if token (ok held) w =
      let freed = (b.redis.del (cleanup_lock_key ∷ []) w).1 in if held =ₛ token then freed else w

  unfoldable pub release_cleanup_lock : String → W → W
  release_cleanup_lock token w = release_if token (b.redis.get w cleanup_lock_key) w

  unfoldable pub bucket_for_kind : String → String
  bucket_for_kind kind = if kind =ₛ "input" then b.store.bucket_uploads else b.store.bucket_outputs

  -- Paths on disk of old rows are passed over.
  unfoldable pub remove_job_objects : List FileMetadata → W → W
  remove_job_objects [] w = w
  remove_job_objects (f ∷ fs) w =
      let removed = (b.store.remove_object (bucket_for_kind f.kind) f.path w).1 in
      remove_job_objects fs (if starts_with f.path "/" then w else removed)

  unfoldable pub files_found : Result (List FileMetadata) → List FileMetadata
  files_found (err e) = []
  files_found (ok fs) = fs

  -- One batch.
  unfoldable pub clean_batch : List String → W → W
  clean_batch ids w =
      b.delete_jobs ids (b.delete_files ids (remove_job_objects (files_found (b.files_of w ids)) w))

  -- What the loop does with a batch; `next` is the rest of it.
  unfoldable pub batch_round : W → (W → W) → Result (List String) → W
  batch_round w next (err e) = w
  batch_round w next (ok ids) =
      let w' = clean_batch ids w in
      let rest = next w' in
      if is_empty ids then w else if ltb (length ids) batch_size then w' else rest

  -- The loop, on fuel.
  unfoldable pub cleanup_expired_jobs : ℕ → ℕ → W → W
  cleanup_expired_jobs zero now w = w
  cleanup_expired_jobs (suc n) now w =
      batch_round w (cleanup_expired_jobs n now) (b.find_expired w now batch_size)

  -- A query that fails counts as a reference.
  unfoldable pub is_referenced : Result ℕ → Bool
  is_referenced (err e) = true
  is_referenced (ok n) = ltb 0 n

  unfoldable pub upload_object_consumed : W → String → Bool
  upload_object_consumed w key = is_referenced (b.count_paths w key)

  unfoldable pub reap_expired_upload_objects : String → String → W → W
  reap_expired_upload_objects key s3_id w =
      let uploads = b.store.bucket_uploads in
      let aborted = (b.store.abort_multipart uploads key s3_id w).1 in
      let w' = if s3_id =ₛ "" then w else aborted in
      let removed = (b.store.remove_object uploads key w').1 in
      if key =ₛ "" then w else if upload_object_consumed w' key then w' else removed

  -- A session whose age is known.
  unfoldable pub reap_if_old : ℕ → String → Fields → Option ℕ → W → W
  reap_if_old now key state none w = w
  reap_if_old now key state (some created) w =
      let reaped =
        reap_expired_upload_objects (field state "key") (field state "s3UploadId")
          (b.redis.del (key ∷ concat key ":chunks" ∷ []) w).1 in
      if ltb (2 * b.upload_ttl) (now - created) then reaped else w

  unfoldable pub reap_state : ℕ → String → Result Fields → W → W
  reap_state now key (err e) w = w
  reap_state now key (ok state) w =
      let aged = reap_if_old now key state (b.parse_time (field state "createdAt")) w in
      if field state "createdAt" =ₛ "" then w else aged

  unfoldable pub reap_keys : ℕ → List String → W → W
  reap_keys now [] w = w
  reap_keys now (key ∷ keys) w =
      let reaped = reap_state now key (b.redis.hget_all w key) w in
      reap_keys now keys (if contains key ":chunks" then w else reaped)

  unfoldable pub cleanup_upload_state : ℕ → W → W
  cleanup_upload_state now w = reap_keys now (b.scan w "upload:*") w

  unfoldable pub abort_all : List IncompleteUpload → W → W
  abort_all [] w = w
  abort_all (u ∷ us) w =
      abort_all us (b.store.abort_multipart b.store.bucket_uploads u.key u.upload_id w).1

  unfoldable pub abort_listed : Result (List IncompleteUpload) → W → W
  abort_listed (err e) w = w
  abort_listed (ok us) w = abort_all us w

  unfoldable pub abort_stale_multipart_uploads : W → W
  abort_stale_multipart_uploads w =
      abort_listed (b.list_incomplete w b.store.bucket_uploads b.stale_age) w

  unfoldable pub sweep_locked : ℕ → ℕ → String → Result Bool × W → W
  sweep_locked fuel now token (err e, w) = w
  sweep_locked fuel now token (ok false, w) = w
  sweep_locked fuel now token (ok true, w) =
      let w1 = cleanup_upload_state now (cleanup_expired_jobs fuel now w) in
      release_cleanup_lock token
        (b.backfill_expiry b.free_job_ttl (abort_stale_multipart_uploads w1))

  -- `token` is a new UUID.
  unfoldable pub run_sweep : ℕ → ℕ → String → W → W
  run_sweep fuel now token w =
      sweep_locked fuel now token (b.redis.set_nx cleanup_lock_key token lock_ttl w)
