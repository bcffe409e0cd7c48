-- ===== src/Jobs/Create/Direct.antt =====
-- The multipart branch of `CreateJobFromTool` and `storeDirectUpload`: a job made of files that come
-- with the request.
use Prim.Native.String.{◌++◌ as concat}
use fyredocs_backend.Prelude.{
  ℕ, ◌*◌, ◌%◌, ◌^◌, String, not, ltb, length, ◌=ₛ◌, if◌then◌else◌, Option, none, some, List, [],
  ◌∷◌, ◌++◌,
}
use fyredocs_backend.Prelude.Int.{ℤ, pos, gtb_ℤ, to_int64}
use fyredocs_backend.Store.{Result, ok, err}
use fyredocs_backend.Store.Objects.{Objects}
use fyredocs_backend.Http.{failure, Flow, go, reply}
use fyredocs_backend.Uploads.Caller.{Caller, plan_max_files_per_job, plan_max_file_size_mb}
use fyredocs_backend.Uploads.Parts.{sanitize_file_name}
use fyredocs_backend.Uploads.Session.{invalid_input}
use fyredocs_backend.Jobs.Tools.{validate_file_type, validate_mime_head}
use fyredocs_backend.Jobs.Create.{
  JobBackend, Fresh, InputFile, Outcome, not_committed, committed, queued, queue_job,
}

-- A file of the form, with the first 512 bytes that opening and reading it yields.
pub record FormFile : Type 0 where
  pub filename : String
  pub size : ℕ
  pub head : Result String

pub record Form : Type 0 where
  pub files : List FormFile
  pub options : List String

abbrev pub first_or_empty : List String → String
first_or_empty [] = ""
first_or_empty (s ∷ ss) = s

module _ {W : Type 0} (b : JobBackend W) (c : Caller) (f : Fresh) (s : Objects W)
    (tool : String) where
  unfoldable pub put_direct : String → Result (Unit {0}) × W → Flow (ℕ × String) String × W
  put_direct key (err e, w) = (reply (500, "SERVER_ERROR"), w)
  put_direct key (ok _, w) = (go key, w)

  -- Lines 863 to 883.
  unfoldable pub store_read : String → ℕ → Result String → W → Flow (ℕ × String) String × W
  store_read name size (err e) w = (reply (500, "SERVER_ERROR"), w)
  store_read name size (ok head) w =
      let key = concat "uploads/" (concat f.job_id (concat "/" name)) in
      let put = put_direct key (s.put_object s.bucket_uploads key size w) in
      if validate_mime_head tool (b.detect head) then put else (reply (400, "INVALID_INPUT"), w)

  -- The object's key, or the reply that its error leads to.
  unfoldable pub store_direct_upload : FormFile → W → Flow (ℕ × String) String × W
  store_direct_upload file w =
      let name = sanitize_file_name file.filename in
      if name =ₛ ""
      then (reply (400, "INVALID_INPUT"), w)
      else store_read name file.size file.head w

  -- int64: it wraps round.
  unfoldable pub direct_limit : ℤ
  direct_limit = to_int64 (plan_max_file_size_mb b.env c * 1048576 % 2 ^ 64)

  -- The files that are stored so far, and how the loop over them ended.
  abbrev Stored : Type 0
  Stored = Flow (ℕ × String) (Unit {0}) × List InputFile × W

  unfoldable pub store_next :
      List InputFile
      → FormFile
      → (List InputFile → W → Stored)
      → Flow (ℕ × String) String × W
      → Stored
  store_next done file next (reply r, w) = (reply r, done, w)
  store_next done file next (go key, w) =
      next (done ++ record { original_name = file.filename; path = key; size = file.size } ∷ []) w

  -- Lines 278 to 312.
  unfoldable pub store_files : List InputFile → List FormFile → W → Stored
  store_files done [] w = (go tt, done, w)
  store_files done (file ∷ files) w =
      let stored =
        store_next done file (λ done' w'. store_files done' files w')
          (store_direct_upload file w) in
      if gtb_ℤ (pos file.size) direct_limit
      then (reply (413, "FILE_TOO_LARGE"), done, b.publish_limit_hit "max_file_size" tool w)
      else if not (validate_file_type tool file.filename)
      then (reply (400, "INVALID_INPUT"), done, w)
      else stored

  -- The deferred removal of this request's objects, unless the job is dispatched. Failures are only
  -- logged.
  unfoldable pub remove_direct : List InputFile → W → W
  remove_direct [] w = w
  remove_direct (x ∷ xs) w = remove_direct xs (s.remove_object s.bucket_uploads x.path w).1

  unfoldable pub remove_unless_queued : List InputFile → Outcome W → Outcome W
  remove_unless_queued files (r, not_committed, w) = (r, not_committed, remove_direct files w)
  remove_unless_queued files (r, committed, w) = (r, committed, remove_direct files w)
  remove_unless_queued files (r, queued, w) = (r, queued, w)

  -- After the loop.
  unfoldable pub queue_stored : String → String → Stored → Outcome W
  queue_stored name options (reply (status, code), files, w) =
      remove_unless_queued files (failure status code, not_committed, w)
  queue_stored name options (go _, files, w) = remove_unless_queued files (
      queue_job b c f tool
        (record { files = files; name = name; options = options; upload_ids = [] }) w)

  -- Lines 256 to 312, and on to the end; `name` is that of the first file.
  unfoldable pub create_direct_from : String → Form → W → Outcome W
  create_direct_from name form w =
      let options = first_or_empty form.options in
      let storing = queue_stored name options (store_files [] form.files w) in
      if ltb (plan_max_files_per_job b.env c) (length form.files)
      then (failure 400 "TOO_MANY_FILES", not_committed, b.publish_limit_hit "max_files" tool w)
      else if b.check_options tool options
      then storing
      else (failure 400 "INVALID_OPTIONS", not_committed, w)

  unfoldable pub first_filename : List FormFile → Option String
  first_filename [] = none
  first_filename (x ∷ xs) = some x.filename

  -- A form that cannot be parsed is `none`.
  unfoldable pub create_direct : Option Form → W → Outcome W
  create_direct none w = (invalid_input, not_committed, w)
  create_direct (some form) w = elim (first_filename form.files) [
    | none ↦ (invalid_input, not_committed, w)
    | some name ↦ create_direct_from name form w
  ]
