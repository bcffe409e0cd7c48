-- ===== src/Jobs/Create/Uploaded.antt =====
-- The JSON branch of `CreateJobFromTool`: a job made of finished uploads.
use fyredocs_backend.Prelude.{
  String, ltb, length, is_empty, ◌=ₛ◌, if◌then◌else◌, Option, none, some, List, [], ◌∷◌, ◌++◌,
}
use fyredocs_backend.Http.{Reply, failure, Flow, go, reply}
use fyredocs_backend.Uploads.Caller.{Caller, plan_max_files_per_job}
use fyredocs_backend.Uploads.Session.{server_error, invalid_input}
use fyredocs_backend.Jobs.Claims.{
  Claim, claimed, conflict, failed, claim_uploads, release_upload_claims,
}
use fyredocs_backend.Jobs.Consume.{ConsumedUpload, ConsumeError, consume_upload, find_existing_job}
use fyredocs_backend.Jobs.Create.{
  JobBackend, Fresh, InputFile, Outcome, not_committed, queue_job, existing_job,
}

pub record UploadJobRequest : Type 0 where
  pub upload_id : String
  pub upload_ids : List String
  pub options : String

abbrev pub already_processing : {B : Type 0} → Reply B
already_processing = failure 409 "ALREADY_PROCESSING"

unfoldable pub requested_ids : UploadJobRequest → List String
requested_ids req =
    if is_empty req.upload_ids
    then if req.upload_id =ₛ "" then [] else req.upload_id ∷ []
    else req.upload_ids

module _ {W : Type 0} (b : JobBackend W) (c : Caller) (f : Fresh) (tool : String) where
  -- The loop over the uploads; nothing of it is written, and the first failure ends it.
  unfoldable pub consume_next :
      List InputFile
      → Flow ConsumeError ConsumedUpload
      → (List InputFile → Flow ConsumeError (List InputFile))
      → Flow ConsumeError (List InputFile)
  consume_next files (reply e) next = reply e
  consume_next files (go u) next =
      next (files ++ record { original_name = u.original_name; path = u.key; size = u.size } ∷ [])

  unfoldable pub consume_all : W → List InputFile → List String → Flow ConsumeError (List InputFile)
  consume_all w files [] = go files
  consume_all w files (id ∷ ids) =
      consume_next files (consume_upload b.redis b.store b.env b.detect tool w id)
        (λ files'. consume_all w files' ids)

  -- The first name that is not empty.
  unfoldable pub first_name : List InputFile → String
  first_name [] = ""
  first_name (x ∷ xs) =
      let rest = first_name xs in if x.original_name =ₛ "" then rest else x.original_name

  -- Lines 221 to 242, and on to the end.
  unfoldable pub queue_consumed :
      String → List String → Flow ConsumeError (List InputFile) → W → Outcome W
  queue_consumed options ids (reply e) w = (invalid_input, not_committed, w)
  queue_consumed options ids (go files) w =
      queue_job b c f tool
        (record { files = files; name = first_name files; options = options; upload_ids = ids }) w

  -- The deferred release of the claims.
  unfoldable pub release_after : List String → Outcome W → Outcome W
  release_after ids (r, p, w) = (r, p, release_upload_claims b.redis ids w)

  -- Lines 199 to 219, and on to the end.
  unfoldable pub with_claims : String → List String → Claim × W → Outcome W
  with_claims options ids (failed e, w) = (server_error, not_committed, w)
  with_claims options ids (conflict, w) = elim (find_existing_job b.redis b.find_job ids w) [
    | some job ↦ existing_job b c f job w
    | none ↦ (already_processing, not_committed, w)
  ]
  with_claims options ids (claimed taken, w) =
      release_after taken (queue_consumed options ids (consume_all w [] ids) w)

  -- Lines 178 to 219, and on to the end.
  unfoldable pub claim_new : String → List String → W → Outcome W
  claim_new options ids w =
      let claiming = with_claims options ids (claim_uploads b.redis ids w) in
      elim (find_existing_job b.redis b.find_job ids w) [
        | some job ↦ existing_job b c f job w
        | none ↦
            if b.check_options tool options
            then claiming
            else (failure 400 "INVALID_OPTIONS", not_committed, w)
      ]

  unfoldable pub create_from_uploads : Option UploadJobRequest → W → Outcome W
  create_from_uploads none w = (invalid_input, not_committed, w)
  create_from_uploads (some req) w =
      let ids = requested_ids req in
      let claiming = claim_new req.options ids w in
      if is_empty ids
      then (invalid_input, not_committed, w)
      else if ltb (plan_max_files_per_job b.env c) (length ids)
      then (failure 400 "TOO_MANY_FILES", not_committed, b.publish_limit_hit "max_files" tool w)
      else claiming
