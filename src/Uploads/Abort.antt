-- ===== src/Uploads/Abort.antt =====
-- Cancelling an upload (`AbortUpload` of job-service/handlers/uploads.go).
use fyredocs_backend.Prelude.{String, Option, none, some, [], ◌∷◌, ◌=ₛ◌, if◌then◌else◌}
use fyredocs_backend.Store.{Result, ok, err}
use fyredocs_backend.Store.Redis.{Redis, Fields}
use fyredocs_backend.Store.Objects.{Objects}
use fyredocs_backend.Http.{Reply, success}
use fyredocs_backend.Uploads.Caller.{Caller}
use fyredocs_backend.Uploads.Session.{
  upload_state_key, upload_chunk_set_key, field, fetch_upload_state, upload_owner_matches,
  session_gone, server_error, invalid_input,
}

module _ {W : Type 0} (redis : Redis W) (c : Caller) (id : String) where
  deleted : Result (Unit {0}) × W → Reply (Unit {0}) × W
  deleted (err e, w) = (server_error, w)
  deleted (ok _, w) = (success 204 tt, w)

  unfoldable pub delete_session : W → Reply (Unit {0}) × W
  unfolding deleted
  delete_session w = deleted (redis.del (upload_state_key id ∷ upload_chunk_set_key id ∷ []) w)

  after_abort : Result (Unit {0}) × W → Reply (Unit {0}) × W
  unfolding delete_session
  after_abort (err e, w) = (server_error, w)
  after_abort (ok _, w) = delete_session w

  -- Lines 332 to 338, with a session at hand.
  abort_multipart : Option (Objects W) → Fields → W → Reply (Unit {0}) × W
  unfolding after_abort delete_session
  abort_multipart none state w = delete_session w
  abort_multipart (some store) state w =
      if field state "s3UploadId" =ₛ ""
      then delete_session w
      else after_abort (
          store.abort_multipart (field state "bucket") (field state "key")
            (field state "s3UploadId") w)

  -- Without a session, gone or unreadable, the keys are deleted all the same.
  unfoldable pub abort_upload : Option (Objects W) → W → Reply (Unit {0}) × W
  unfolding abort_multipart
  abort_upload store w =
      if id =ₛ "" then (invalid_input, w) else elim (fetch_upload_state redis w id) [
        | err e ↦ delete_session w
        | ok state ↦
            if upload_owner_matches c state
            then abort_multipart store state w
            else (session_gone, w)
      ]
