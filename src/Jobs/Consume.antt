-- ===== src/Jobs/Consume.antt =====
-- Turning a finished upload into a job's input, and recognising a job submitted twice
-- (`consumeUpload`, `releaseUpload`, `recordConsumedUpload` and `findExistingJobForUploads` of
-- job-service/handlers/jobs.go).
use Prim.Native.String.{◌++◌ as concat}
use fyredocs_backend.Prelude.{
  ℕ, String, Bool, true, false, not, ◌||◌, ◌=ₛ◌, if◌then◌else◌, is_empty, Option, none, some, List,
  [], ◌∷◌,
}
use fyredocs_backend.Prelude.Int.{ℤ, pos, gtb_ℤ}
use fyredocs_backend.Config.{Env, max_upload_bytes}
use fyredocs_backend.Store.{Result, ok, err, not_found, broken}
use fyredocs_backend.Store.Redis.{Redis, Fields}
use fyredocs_backend.Store.Objects.{Objects, ObjectInfo}
use fyredocs_backend.Http.{Flow, go, reply}
use fyredocs_backend.Uploads.Session.{field, upload_state_key, upload_chunk_set_key}
use fyredocs_backend.Jobs.Tools.{validate_file_type, validate_mime_head}
pub mod Usable
pub mod Existing

pub record ConsumedUpload : Type 0 where
  pub key : String
  pub original_name : String
  pub size : ℕ

-- The errors of `consumeUpload`, by their texts' meanings.
pub data ConsumeError : Type 0 where
  id_required unavailable upload_not_found unreadable no_file_name wrong_type no_key : ConsumeError
  not_uploaded unverified too_large wrong_contents : ConsumeError

abbrev pub sniff_len : ℕ
sniff_len = 512

module _ {W : Type 0} (redis : Option (Redis W)) (store : Option (Objects W)) (env : Env)
    (detect : String → String) (tool : String) where
  -- Lines 710 to 719. `detect` is `http.DetectContentType`.
  unfoldable pub check_contents :
      String → String → ℕ → Result String → Flow ConsumeError ConsumedUpload
  check_contents key name size (err e) = reply unverified
  check_contents key name size (ok head) =
      if validate_mime_head tool (detect head)
      then go (record { key = key; original_name = name; size = size })
      else reply wrong_contents

  -- Lines 697 to 719.
  unfoldable pub check_object :
      Objects W
      → W
      → String
      → String
      → String
      → Result ObjectInfo
      → Flow ConsumeError ConsumedUpload
  check_object s w bucket key name (err not_found) = reply not_uploaded
  check_object s w bucket key name (err (broken e)) = reply unverified
  check_object s w bucket key name (ok info) =
      if gtb_ℤ (pos info.size) (max_upload_bytes env)
      then reply too_large
      else check_contents key name info.size (s.get_object_range w bucket key 0 sniff_len)

  unfoldable pub bucket_of : Objects W → Fields → String
  bucket_of s state = if field state "bucket" =ₛ "" then s.bucket_uploads else field state "bucket"

  -- Lines 676 to 719.
  unfoldable pub check_session : Objects W → W → Fields → Flow ConsumeError ConsumedUpload
  check_session s w state =
      let name = field state "fileName" in
      let key = field state "key" in
      if is_empty state
      then reply upload_not_found
      else if name =ₛ ""
      then reply no_file_name
      else if not (validate_file_type tool name)
      then reply wrong_type
      else if key =ₛ ""
      then reply no_key
      else check_object s w (bucket_of s state) key name (s.stat_object w (bucket_of s state) key)

  unfoldable pub read_session : Objects W → W → Result Fields → Flow ConsumeError ConsumedUpload
  read_session s w (err not_found) = reply upload_not_found
  read_session s w (err (broken e)) = reply unreadable
  read_session s w (ok state) = check_session s w state

  -- Changes nothing.
  unfoldable pub consume_upload : W → String → Flow ConsumeError ConsumedUpload
  consume_upload w id = if id =ₛ "" then reply id_required else elim redis [
    | none ↦ reply unavailable
    | some r ↦ elim store [
      | none ↦ reply unavailable
      | some s ↦ read_session s w (r.hget_all w (upload_state_key id))
    ]
  ]

unfoldable pub consumed_upload_key : String → String
consumed_upload_key id = concat "idempotency:upload:" id

-- Seconds.
abbrev pub consumed_upload_idempotency_ttl : ℕ
consumed_upload_idempotency_ttl = 600

module _ {W : Type 0} where
  -- The deletion's own result is only logged.
  unfoldable pub release_upload : Option (Redis W) → String → W → W
  release_upload none id w = w
  release_upload (some redis) id w =
      if id =ₛ "" then w else (redis.del (upload_state_key id ∷ upload_chunk_set_key id ∷ []) w).1

  unfoldable pub record_consumed_upload : Option (Redis W) → String → String → W → W
  record_consumed_upload none id job w = w
  record_consumed_upload (some redis) id job w =
      if id =ₛ "" || job =ₛ ""
      then w
      else (redis.set (consumed_upload_key id) job consumed_upload_idempotency_ttl w).1

  -- The job that an upload's record names, if there is one.
  unfoldable pub consumer : Redis W → W → String → Option String
  consumer redis w id = if id =ₛ "" then none else elim (redis.get w (consumed_upload_key id)) [
    | err e ↦ none
    | ok job ↦ if job =ₛ "" then none else some job
  ]

  -- The loop over the uploads; `job` is the one found so far, "" before the first.
  unfoldable pub same_consumer : Redis W → W → String → List String → Option String
  same_consumer redis w job [] = some job
  same_consumer redis w job (id ∷ ids) = elim (consumer redis w id) [
    | none ↦ none
    | some got ↦
        let rest = same_consumer redis w got ids in if job =ₛ "" || got =ₛ job then rest else none
  ]

  -- `find_job` is the database's lookup of a job by its id.
  unfoldable pub find_existing_job :
      {J : Type 0} → Option (Redis W) → (W → String → Option J) → List String → W → Option J
  find_existing_job none find_job ids w = none
  find_existing_job (some redis) find_job ids w =
      if is_empty ids
      then none
      else elim (same_consumer redis w "" ids) [ none ↦ none | some job ↦ find_job w job ]
