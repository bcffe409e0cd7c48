-- ===== src/Uploads/Complete/Verified.antt =====
-- What holds of an upload that is reported complete.
use fyredocs_backend.Prelude.{
  ℕ, String, true, false, ◌≡◌, ◌≢◌, ap, refl, some, List, map, length, arith, inl, inr, Bool-cases,
  ◌=ₛ◌,
}
use fyredocs_backend.Prelude.Int.{pos, gtb_ℤ}
use fyredocs_backend.Config.{Env}
use fyredocs_backend.Store.{Result, ok, err}
use fyredocs_backend.Store.Redis.{Redis, Fields}
use fyredocs_backend.Store.Objects.{Objects, ObjectInfo, CompletedPart}
use fyredocs_backend.Http.{Reply, success, go, reply, Flow-cases}
use fyredocs_backend.Uploads.Caller.{Caller}
use fyredocs_backend.Uploads.Session.{field, fetch_upload_state, upload_owner_matches, open_session}
use fyredocs_backend.Uploads.Init.{size_limit}
use fyredocs_backend.Uploads.Complete.{
  UploadCompletedPart, Completed, total_parts, same_count, all_ok, to_completed, check_parts,
  verify_size, after_complete, finish_upload, complete_upload,
}

check_parts_passed :
    (B : Type 0) (state : Fields) (parts : List UploadCompletedPart) (cs : List CompletedPart)
    → check_parts {B = B} state parts ≡ go cs
    → (same_count (length parts) (total_parts state) ≡ true)
      × (all_ok (total_parts state) parts ≡ true)
      × (cs ≡ map to_completed parts)
unfolding check_parts
check_parts_passed B state parts cs h = ground arith

check_parts_refused :
    (B : Type 0) (state : Fields) (parts : List UploadCompletedPart) (bad : Reply B)
    → check_parts {B = B} state parts ≡ reply bad
    → (b : B) → bad ≢ success 200 b
unfolding check_parts
check_parts_refused B state parts bad h b e = ground arith

open_session_refused :
    {W : Type 0} (B : Type 0) (redis : Redis W) (w : W) (c : Caller) (id : String) (bad : Reply B)
    → open_session {B = B} redis w c id ≡ reply bad
    → (b : B) → bad ≢ success 200 b
unfolding open_session
open_session_refused B redis w c id bad h b e = ground arith

open_session_passed :
    {W : Type 0} (B : Type 0) (redis : Redis W) (w : W) (c : Caller) (id : String) (state : Fields)
    → open_session {B = B} redis w c id ≡ go state
    → (fetch_upload_state redis w id ≡ ok state) × (upload_owner_matches c state ≡ true)
unfolding open_session
open_session_passed B redis w c id state h = ground arith

module _ {W : Type 0} (redis : Redis W) (store : Objects W) (env : Env) (ttl : ℕ) (c : Caller)
    (id : String) where
  -- The world once the store has assembled the parts.
  unfoldable pub assembled : Fields → List UploadCompletedPart → W → W
  assembled state parts w =
      (store.complete_multipart (field state "bucket") (field state "key")
        (field state "s3UploadId") (map to_completed parts) w).1

  pub record IsVerified (parts : List UploadCompletedPart) (w : W) (r : Completed) : Type 0 where
    pub state : Fields
    pub info : ObjectInfo
    pub stored : fetch_upload_state redis w id ≡ ok state
    pub owned : upload_owner_matches c state ≡ true
    pub counted : same_count (length parts) (total_parts state) ≡ true
    pub numbered : all_ok (total_parts state) parts ≡ true
    pub measured :
        store.stat_object (assembled state parts w) (field state "bucket") (field state "key")
        ≡ ok info
    pub within_limit : gtb_ℤ (pos info.size) (size_limit env c) ≡ false
    pub reported : r.size ≡ info.size

  verify_size_passed :
      (state : Fields) (stat : Result ObjectInfo) (w w' : W) (r : Completed)
      → verify_size redis store env ttl c id state stat w ≡ (success 200 r, w')
      → (info : ObjectInfo) × (stat ≡ ok info)
        × (gtb_ℤ (pos info.size) (size_limit env c) ≡ false)
        × (r.size ≡ info.size)
  unfolding verify_size
  verify_size_passed state (err e) w w' r h = cc
  verify_size_passed state (ok info) w w' r h = (info, refl, ground arith, ground arith)

  after_complete_passed :
      (state : Fields) (p : Result (Unit {0}) × W) (w' : W) (r : Completed)
      → after_complete redis store env ttl c id state p ≡ (success 200 r, w')
      → (info : ObjectInfo) × (store.stat_object p.1 (field state "bucket") (field state "key")
          ≡ ok info)
        × (gtb_ℤ (pos info.size) (size_limit env c) ≡ false)
        × (r.size ≡ info.size)
  unfolding after_complete
  after_complete_passed state (err e, w) w' r h = cc
  after_complete_passed state (ok u, w) w' r h = verify_size_passed state _ w w' r h

  finish_upload_passed :
      (state : Fields) (parts : List UploadCompletedPart) (w w' : W) (r : Completed)
      → fetch_upload_state redis w id ≡ ok state
      → upload_owner_matches c state ≡ true
      → finish_upload redis store env ttl c id state parts w ≡ (success 200 r, w')
      → IsVerified parts w r
  unfolding finish_upload assembled
  finish_upload_passed state parts w w' r stored owned h =
      elim (Flow-cases (check_parts {B = Completed} state parts)) [
        | inl (bad, e) ↦
            let h' = rw (e, finish_upload) at h in
            absurd (check_parts_refused Completed state parts bad e r (ap (λ t. t.0) h'))
        | inr (cs, e) ↦
            let h' = rw (e, finish_upload) at h in
            let (counted, numbered, same) = check_parts_passed (Completed) state parts cs e in
            let (info, measured, within, reported) =
              after_complete_passed state _ w' r (rw same at h') in
            record {
              state = state;
              info = info;
              stored = stored;
              owned = owned;
              counted = counted;
              numbered = numbered;
              measured = measured;
              within_limit = within;
              reported = reported;
            }
      ]

  -- An upload is reported complete only to a caller who may use its session, with as many parts as
  -- it was cut into, each with an ETag and a number among them, and when the size that the store
  -- states for the assembled object is within the plan's limit; that size is the one reported.
  pub complete_upload-IsVerified :
      (parts : List UploadCompletedPart) (w w' : W) (r : Completed)
      → complete_upload redis (some store) env ttl c id (some parts) w ≡ (success 200 r, w')
      → IsVerified parts w r
  unfolding complete_upload
  complete_upload-IsVerified parts w w' r h = elim (Bool-cases (id =ₛ "")) [
    | inl e ↦ let h' = rw e at h in cc
    | inr e ↦ elim (Flow-cases (open_session {B = Completed} redis w c id)) [
      | inl (bad, e') ↦
          let h' = rw (e, e', complete_upload) at h in
          absurd (open_session_refused Completed redis w c id bad e' r (ap (λ t. t.0) h'))
      | inr (state, e') ↦
          let (stored, owned) = open_session_passed Completed redis w c id state e' in
          finish_upload_passed state parts w w' r stored owned (rw (e, e', complete_upload) at h)
    ]
  ]
