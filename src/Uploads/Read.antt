-- ===== src/Uploads/Read.antt =====
-- Reading a session: fresh part URLs and its status (`GetUploadParts` and `GetUploadStatus` of
-- job-service/handlers/uploads.go). Neither changes anything.
use fyredocs_backend.Prelude.{String, Option, none, some, List, ◌=ₛ◌, if◌then◌else◌}
use fyredocs_backend.Prelude.Int.{ℤ, pos, to_nat}
use fyredocs_backend.Text.Decimal.{atoi}
use fyredocs_backend.Config.{or_else}
use fyredocs_backend.Store.{Result, ok, err}
use fyredocs_backend.Store.Redis.{Redis, Fields}
use fyredocs_backend.Store.Objects.{Objects}
use fyredocs_backend.Http.{Reply, success, go, reply}
use fyredocs_backend.Uploads.Caller.{Caller}
use fyredocs_backend.Uploads.Session.{field, open_session, server_error, invalid_input}
use fyredocs_backend.Uploads.Parts.{UploadPartUrl, parse_part_numbers, presign_parts}
use fyredocs_backend.Uploads.Complete.{total_parts}

pub record Refreshed : Type 0 where
  pub upload_id : String
  pub part_size : ℤ
  pub parts : List UploadPartUrl

pub record Status : Type 0 where
  pub upload_id : String
  pub file_name : String
  pub declared_size : ℤ
  pub total_parts : ℤ

-- `strconv.ParseInt`; 0 if it does not parse.
abbrev number : Fields → String → ℤ
number state k = or_else (atoi (field state k)) (pos 0)

module _ {W : Type 0} (redis : Redis W) (c : Caller) (id : String) where
  presigned : Fields → Result (List UploadPartUrl) → Reply Refreshed
  presigned state (err e) = server_error
  presigned state (ok parts) =
      success 200 (record { upload_id = id; part_size = number state "partSize"; parts = parts })

  -- Lines 198 to 218; `raw` is the query's partNumbers.
  refresh_parts : Objects W → String → Fields → W → Reply Refreshed
  unfolding presigned field
  refresh_parts store raw state w = elim (parse_part_numbers raw (to_nat (total_parts state))) [
    | none ↦ invalid_input
    | some ns ↦ presigned state (
        presign_parts store w (field state "bucket") (field state "key") (field state "s3UploadId")
          ns)
  ]

  unfoldable pub get_upload_parts : Option (Objects W) → String → W → Reply Refreshed
  unfolding open_session refresh_parts
  get_upload_parts none raw w = server_error
  get_upload_parts (some store) raw w =
      if id =ₛ "" then invalid_input else elim (open_session redis w c id) [
        | reply r ↦ r
        | go state ↦ refresh_parts store raw state w
      ]

  unfoldable pub get_upload_status : W → Reply Status
  unfolding open_session field
  get_upload_status w = if id =ₛ "" then invalid_input else elim (open_session redis w c id) [
    | reply r ↦ r
    | go state ↦ success 200 (record {
      upload_id = id;
      file_name = field state "fileName";
      declared_size = number state "declaredSize";
      total_parts = total_parts state;
    })
  ]
