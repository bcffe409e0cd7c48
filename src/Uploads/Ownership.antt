-- ===== src/Uploads/Ownership.antt =====
-- A session is its owner's alone.
use fyredocs_backend.Prelude.{
  ℕ, String, false, ◌≡◌, ◌≢◌, refl, none, some, List, ◌=ₛ◌, arith, eq_iff,
}
use fyredocs_backend.Config.{Env}
use fyredocs_backend.Store.{Fault, Result, ok, err, not_found, broken}
use fyredocs_backend.Store.Redis.{Redis, Fields}
use fyredocs_backend.Store.Objects.{Objects}
use fyredocs_backend.Http.{Reply, reply}
use fyredocs_backend.Uploads.Caller.{Caller, upload_owner_id}
use fyredocs_backend.Uploads.Session.{
  field, fetch_upload_state, upload_owner_matches, open_session, session_gone, server_error,
}
use fyredocs_backend.Uploads.Complete.{UploadCompletedPart, complete_upload}
use fyredocs_backend.Uploads.Abort.{abort_upload, delete_session}
use fyredocs_backend.Uploads.Read.{get_upload_parts, get_upload_status}

-- Another's session: it has an owner, and the caller is not that owner.
pub record IsForeign (c : Caller) (state : Fields) : Type 0 where
  pub owned : field state "owner" ≢ ""
  pub other : upload_owner_id c none ≢ field state "owner"

foreign_mismatch :
    (c : Caller) (state : Fields) → IsForeign c state → upload_owner_matches c state ≡ false
unfolding upload_owner_matches
foreign_mismatch c state f = ground (
  arith,
  f.owned,
  f.other,
  eq_iff (field state "owner") "",
  eq_iff (upload_owner_id c none) (field state "owner"),
)

module _ {W : Type 0} (redis : Redis W) (store : Objects W) (env : Env) (ttl : ℕ) (c : Caller)
    (id : String) (named : id ≢ "") where
  open_foreign :
      (B : Type 0) (w : W) (state : Fields)
      → fetch_upload_state redis w id ≡ ok state
      → IsForeign c state
      → open_session {B = B} redis w c id ≡ reply session_gone
  unfolding open_session
  open_foreign B w state e f = rw (e, open_session, foreign_mismatch c state f) refl

  named_test : (id =ₛ "") ≡ false
  named_test = ground (arith, named, eq_iff id "")

  -- How a session that cannot be read is answered: it is gone, or Redis has failed.
  abbrev pub unreadable : {B : Type 0} → Fault → Reply B
  unreadable not_found = session_gone
  unreadable (broken m) = server_error

  open_unreadable :
      (B : Type 0) (w : W) (e : Fault)
      → fetch_upload_state redis w id ≡ err e
      → open_session {B = B} redis w c id ≡ reply (unreadable e)
  unfolding open_session
  open_unreadable B w not_found h = rw (h, open_session) refl
  open_unreadable B w (broken m) h = rw (h, open_session) refl

  -- The four replies, after the result of the session's lookup.
  abbrev pub Refused : W → String → List UploadCompletedPart → Result Fields → Type 0
  Refused w raw parts (ok state) =
      (get_upload_parts redis c id (some store) raw w ≡ session_gone)
      × (get_upload_status redis c id w ≡ session_gone)
      × (complete_upload redis (some store) env ttl c id (some parts) w ≡ (session_gone, w))
      × (abort_upload redis c id (some store) w ≡ (session_gone, w))
  Refused w raw parts (err e) =
      (get_upload_parts redis c id (some store) raw w ≡ unreadable e)
      × (get_upload_status redis c id w ≡ unreadable e)
      × (complete_upload redis (some store) env ttl c id (some parts) w ≡ (unreadable e, w))
      × (abort_upload redis c id (some store) w ≡ delete_session redis c id w)

  -- For a caller who is not the owner of a session that has one. If the session can be read, it is
  -- answered as not found: its parts and its status are refused, and completing or aborting it
  -- changes nothing. If it cannot, because it is gone or because Redis fails, its parts, its status
  -- and its completion are refused with 404 or 500 and nothing changes, but aborting deletes its
  -- keys: an abort whose lookup fails does not check the owner.
  pub foreign_session_gone :
      (w : W) (raw : String) (parts : List UploadCompletedPart) (found : Result Fields)
      → fetch_upload_state redis w id ≡ found
      → ((state : Fields) → found ≡ ok state → IsForeign c state)
      → Refused w raw parts found
  unfolding get_upload_parts get_upload_status complete_upload abort_upload
  foreign_session_gone w raw parts (ok state) e foreign =
      let f = foreign state refl in
      (
        rw (named_test, open_foreign _ w state e f) refl,
        rw (named_test, open_foreign _ w state e f) refl,
        rw (named_test, open_foreign _ w state e f) refl,
        rw (named_test, e, foreign_mismatch c state f) refl,
      )
  foreign_session_gone w raw parts (err x) e foreign = (
    rw (named_test, open_unreadable _ w x e) refl,
    rw (named_test, open_unreadable _ w x e) refl,
    rw (named_test, open_unreadable _ w x e) refl,
    rw (named_test, e) refl,
  )
