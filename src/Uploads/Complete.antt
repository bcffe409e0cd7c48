-- ===== src/Uploads/Complete.antt =====
-- Finishing an upload (`CompleteUpload` of job-service/handlers/uploads.go).
pub mod Verified
use fyredocs_backend.Prelude.{
  ℕ, String, Bool, true, false, ◌&&◌, not, Option, none, some, List, [], ◌∷◌, map, length, leb,
  ◌==◌, ◌=ₛ◌, if◌then◌else◌,
}
use fyredocs_backend.Prelude.Int.{ℤ, pos, negsuc, is_positive, to_nat, gtb_ℤ}
use fyredocs_backend.Text.Decimal.{itoa, atoi}
use fyredocs_backend.Config.{Env, or_else}
use fyredocs_backend.Store.{Result, ok, err}
use fyredocs_backend.Store.Redis.{Redis, Fields}
use fyredocs_backend.Store.Objects.{Objects, ObjectInfo, CompletedPart}
use fyredocs_backend.Http.{Reply, success, failure, Flow, go, reply}
use fyredocs_backend.Uploads.Caller.{Caller}
use fyredocs_backend.Uploads.Session.{
  upload_state_key, field, open_session, server_error, invalid_input,
}
use fyredocs_backend.Uploads.Init.{size_limit}

pub record UploadCompletedPart : Type 0 where
  pub part_number : ℤ
  pub etag : String

pub record Completed : Type 0 where
  pub upload_id : String
  pub file_name : String
  pub size : ℕ

-- `strconv.Atoi` of the stored count; 0 if it does not parse.
unfoldable pub total_parts : Fields → ℤ
unfolding field
total_parts state = or_else (atoi (field state "totalParts")) (pos 0)

-- 1 ≤ number ≤ total, and an ETag.
unfoldable pub part_ok : ℤ → UploadCompletedPart → Bool
part_ok total p = is_positive p.part_number && not (gtb_ℤ p.part_number total) && not (p.etag =ₛ "")

abbrev pub all_ok : ℤ → List UploadCompletedPart → Bool
all_ok total [] = true
all_ok total (p ∷ ps) = part_ok total p && all_ok total ps

unfoldable pub to_completed : UploadCompletedPart → CompletedPart
to_completed p = record { part_number = to_nat p.part_number; etag = p.etag }

abbrev pub same_count : ℕ → ℤ → Bool
same_count n (pos k) = n == k
same_count n (negsuc k) = false

-- Lines 258 to 271.
unfoldable pub check_parts :
    {B : Type 0} → Fields → List UploadCompletedPart → Flow (Reply B) (List CompletedPart)
unfolding total_parts part_ok
check_parts state parts =
    if not (same_count (length parts) (total_parts state))
    then reply (failure 400 "UPLOAD_INCOMPLETE")
    else if not (all_ok (total_parts state) parts)
    then reply invalid_input
    else go (map to_completed parts)

module _ {W : Type 0} (redis : Redis W) (store : Objects W) (env : Env) (ttl : ℕ) (c : Caller)
    (id : String) where
  unfoldable pub record_size : Fields → ℕ → Result (Unit {0}) × W → Reply Completed × W
  record_size state size (err e, w) = (server_error, w)
  record_size state size (ok _, w) =
      (success 200 (record { upload_id = id; file_name = field state "fileName"; size = size }), w)

  -- Removes the object, then the session; the removals' own results are dropped.
  unfoldable pub discard_upload : Fields → W → W
  discard_upload state w =
      let w' = (store.remove_object (field state "bucket") (field state "key") w).1 in
      (redis.del (upload_state_key id ∷ []) w').1

  -- Lines 288 to 313.
  unfoldable pub verify_size : Fields → Result ObjectInfo → W → Reply Completed × W
  unfolding discard_upload record_size
  verify_size state (err e) w = (server_error, w)
  verify_size state (ok info) w =
      if gtb_ℤ (pos info.size) (size_limit env c)
      then (failure 413 "FILE_TOO_LARGE", discard_upload state w)
      else record_size state info.size
          (redis.hset_expire (upload_state_key id) (("size", itoa info.size) ∷ []) ttl w)

  -- Lines 281 to 313.
  unfoldable pub after_complete : Fields → Result (Unit {0}) × W → Reply Completed × W
  unfolding verify_size field
  after_complete state (err e, w) = (failure 400 "UPLOAD_INCOMPLETE", w)
  after_complete state (ok _, w) =
      verify_size state (store.stat_object w (field state "bucket") (field state "key")) w

  unfoldable pub finish_upload : Fields → List UploadCompletedPart → W → Reply Completed × W
  unfolding after_complete check_parts field
  finish_upload state parts w = elim (check_parts state parts) [
    | reply r ↦ (r, w)
    | go completed ↦ after_complete state (
        store.complete_multipart (field state "bucket") (field state "key")
          (field state "s3UploadId") completed w)
  ]

-- The body is `none` if it does not bind.
unfoldable pub complete_upload :
    {W : Type 0}
    → Redis W
    → Option (Objects W)
    → Env
    → ℕ
    → Caller
    → String
    → Option (List UploadCompletedPart)
    → W
    → Reply Completed × W
unfolding finish_upload open_session
complete_upload redis none env ttl c id body w = (server_error, w)
complete_upload redis (some store) env ttl c id none w = (invalid_input, w)
complete_upload redis (some store) env ttl c id (some parts) w =
    if id =ₛ "" then (invalid_input, w) else elim (open_session redis w c id) [
      | reply r ↦ (r, w)
      | go state ↦ finish_upload redis store env ttl c id state parts w
    ]
