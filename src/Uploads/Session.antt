-- ===== src/Uploads/Session.antt =====
-- Upload sessions in Redis, and who may use one (`fetchUploadState`, `uploadOwnerMatches`,
-- `uploadStateKey` and `uploadChunkSetKey` of job-service/handlers/uploads.go).
use Prim.Native.String.{◌++◌ as concat}
use fyredocs_backend.Prelude.{String, Bool, true, none, [], ◌∷◌, ◌=ₛ◌, if◌then◌else◌, is_empty}
use fyredocs_backend.Store.{Result, ok, err, not_found, broken}
use fyredocs_backend.Store.Redis.{Redis, Fields}
use fyredocs_backend.Http.{Reply, failure, Flow, go, reply}
use fyredocs_backend.Uploads.Caller.{Caller, upload_owner_id}

unfoldable pub upload_state_key : String → String
upload_state_key id = concat "upload:" id

unfoldable pub upload_chunk_set_key : String → String
upload_chunk_set_key id = concat (concat "upload:" id) ":chunks"

-- A field of a hash; "" if it is not there.
unfoldable pub field : Fields → String → String
field [] k = ""
field ((j, v) ∷ fs) k = if j =ₛ k then v else field fs k

unfoldable pub fetch_upload_state : {W : Type 0} → Redis W → W → String → Result Fields
fetch_upload_state redis w id = elim (redis.hget_all w (upload_state_key id)) [
  | err e ↦ err e
  | ok state ↦ if is_empty state then err not_found else ok state
]

-- A session without an owner is open to everyone.
unfoldable pub upload_owner_matches : Caller → Fields → Bool
upload_owner_matches c state =
    let owner = field state "owner" in if owner =ₛ "" then true else upload_owner_id c none =ₛ owner

-- The reply to a caller who asks for a session that is gone, or that is another caller's.
abbrev pub session_gone : {B : Type 0} → Reply B
session_gone = failure 404 "NOT_FOUND"

abbrev pub server_error : {B : Type 0} → Reply B
server_error = failure 500 "SERVER_ERROR"

abbrev pub invalid_input : {B : Type 0} → Reply B
invalid_input = failure 400 "INVALID_INPUT"

-- The session of an id for a caller who may use it: the lines that the handlers share.
unfoldable pub open_session : {W B : Type 0} → Redis W → W → Caller → String → Flow (Reply B) Fields
open_session redis w c id = elim (fetch_upload_state redis w id) [
  | err not_found ↦ reply session_gone
  | err (broken m) ↦ reply server_error
  | ok state ↦ if upload_owner_matches c state then go state else reply session_gone
]
