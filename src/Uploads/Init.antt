-- ===== src/Uploads/Init.antt =====
-- Starting an upload (`InitUpload` of job-service/handlers/uploads.go): the checks, then the
-- multipart upload, its presigned URLs and the session in Redis.
pub mod Checks
pub mod NoLeak
use Prim.Native.String.{◌++◌ as concat}
use fyredocs_backend.Prelude.{
  ℕ, zero, suc, ◌==◌, ◌+◌, ◌-◌, ◌*◌, ◌/◌, ◌%◌, ◌^◌, String, Bool, ◌&&◌, ◌||◌, not, Option, none,
  some, List, [], ◌∷◌, ltb, leb, ◌=ₛ◌, if◌then◌else◌,
}
use fyredocs_backend.Prelude.Int.{ℤ, pos, negsuc, is_positive, to_nat, gtb_ℤ, to_int64}
use fyredocs_backend.Text.Space.{trim_space}
use fyredocs_backend.Text.Decimal.{itoa}
use fyredocs_backend.Config.{Env}
use fyredocs_backend.Store.{Result, ok, err}
use fyredocs_backend.Store.Redis.{Redis, Fields}
use fyredocs_backend.Store.Objects.{Objects}
use fyredocs_backend.Http.{Reply, success, failure, Flow, go, reply}
use fyredocs_backend.Uploads.Caller.{Caller, plan_max_file_size_mb, upload_owner_id}
use fyredocs_backend.Uploads.Session.{upload_state_key, server_error, invalid_input}
use fyredocs_backend.Uploads.Parts.{
  UploadPartUrl, max_upload_parts, all_part_numbers, sanitize_file_name, upload_part_size,
  presign_parts,
}

pub record UploadInitRequest : Type 0 where
  pub file_name : String
  pub file_size : ℤ
  pub content_type : String

-- What the checks hand on.
pub record Plan : Type 0 where
  pub file_name : String
  pub file_size : ℕ
  pub content_type : String
  pub part_size : ℕ
  pub total_parts : ℕ

pub record Started : Type 0 where
  pub upload_id : String
  pub key : String
  pub part_size : ℕ
  pub total_parts : ℕ
  pub parts : List UploadPartUrl

-- The plan's limit in bytes; the int64 product wraps round.
unfoldable pub size_limit : Env → Caller → ℤ
size_limit env c = to_int64 (plan_max_file_size_mb env c * 1048576 % 2 ^ 64)

bits_from : ℕ → ℕ → ℕ
bits_from zero n = 0
bits_from (suc fuel) n = let rest = bits_from fuel (n / 2) in if n == 0 then 0 else suc rest

-- The bits of an int64.
bit_length : ℕ → ℕ
unfolding bits_from
bit_length n = bits_from 65 n

-- `a / b` to the nearest integer, a tie to the even one.
nearest : ℕ → ℕ → ℕ
nearest a b =
    let q = a / b in
    let r = a % b * 2 in if ltb r b then q else if ltb b r then q + 1 else q + q % 2

-- The integer that `float64` makes of an integer: 53 bits of it.
to_float : ℕ → ℕ
unfolding nearest bit_length
to_float n = let e = 2 ^ (bit_length n - 53) in nearest n e * e

-- `math.Ceil(float64(a) / float64(b))` for positive int64s whose quotient is below 2 ^ 52: the
-- quotient is rounded to 53 bits, `2 ^ 53` of which are `2 ^ e` wholes.
unfoldable pub float_ceil_quotient : ℕ → ℕ → ℕ
unfolding nearest bit_length to_float
float_ceil_quotient a b =
    let a' = to_float a in
    let b' = to_float b in
    let wide = 53 + bit_length b' - bit_length a' in
    let e = if ltb (a' * 2 ^ wide / b') (2 ^ 53) then wide else wide - 1 in
    (nearest (a' * 2 ^ e) b' + 2 ^ e - 1) / 2 ^ e

-- `math.Ceil` of the float64 quotient. Below 2 ^ 52 bytes the size is a float64, and no quotient of
-- it by an integer is rounded to or over an integer that it is not, so the result is exact.
unfoldable pub parts_needed : ℕ → ℕ → ℕ
unfolding float_ceil_quotient
parts_needed size part_size =
    if ltb size (2 ^ 52)
    then (size + part_size - 1) / part_size
    else float_ceil_quotient size part_size

-- Lines 82 to 111. The body is `none` if it does not bind.
unfoldable pub check_init :
    {B : Type 0} → Env → Caller → Option UploadInitRequest → Flow (Reply B) Plan
check_init env c none = reply invalid_input
check_init env c (some req) =
    let name = sanitize_file_name req.file_name in
    let size = to_nat req.file_size in
    let part_size = upload_part_size env in
    let total = parts_needed size part_size in
    let content_type = trim_space req.content_type in
    if name =ₛ "" || not (is_positive req.file_size)
    then reply invalid_input
    else if gtb_ℤ req.file_size (size_limit env c)
    then reply (failure 413 "FILE_TOO_LARGE")
    else if ltb max_upload_parts total
    then reply invalid_input
    else go (record {
      file_name = name;
      file_size = size;
      content_type = if content_type =ₛ "" then "application/octet-stream" else content_type;
      part_size = part_size;
      total_parts = total;
    })

unfoldable pub object_key : String → String → String
object_key id name = concat "uploads/" (concat id (concat "/" name))

-- The hash that is stored; go-redis writes numbers in decimal.
unfoldable pub session_fields : Plan → String → String → String → String → String → Fields
session_fields plan bucket key s3_id now owner =
    ("fileName", plan.file_name)
    ∷ ("declaredSize", itoa plan.file_size)
    ∷ ("contentType", plan.content_type)
    ∷ ("bucket", bucket)
    ∷ ("key", key)
    ∷ ("s3UploadId", s3_id)
    ∷ ("partSize", itoa plan.part_size)
    ∷ ("totalParts", itoa plan.total_parts)
    ∷ ("createdAt", now)
    ∷ ("owner", owner)
    ∷ []

-- `now` is the current time in RFC 3339, `upload_id` and `fresh` are new UUIDs, `ttl` is
-- `config.UploadTTL()` in seconds.
pub record Moment : Type 0 where
  pub now : String
  pub upload_id : String
  pub fresh : String
  pub ttl : ℕ

module _ {W : Type 0} (redis : Redis W) (store : Objects W) (m : Moment) (c : Caller)
    (plan : Plan) where
  abbrev pub the_key : String
  the_key = object_key m.upload_id plan.file_name

  abort : String → W → W
  abort s3_id w = (store.abort_multipart store.bucket_uploads the_key s3_id w).1

  -- Lines 133 to 164.
  record_session : String → List UploadPartUrl → Result (Unit {0}) × W → Reply Started × W
  unfolding abort
  record_session s3_id parts (err e, w) = (server_error, abort s3_id w)
  record_session s3_id parts (ok _, w) = (
    success 201 (record {
      upload_id = m.upload_id;
      key = the_key;
      part_size = plan.part_size;
      total_parts = plan.total_parts;
      parts = parts;
    }),
    w,
  )

  -- Lines 125 to 155.
  presign_session : String → Result (List UploadPartUrl) → W → Reply Started × W
  unfolding abort record_session
  presign_session s3_id (err e) w = (server_error, abort s3_id w)
  presign_session s3_id (ok parts) w = record_session s3_id parts (
      redis.hset_expire (upload_state_key m.upload_id)
        (session_fields plan store.bucket_uploads the_key s3_id m.now
          (upload_owner_id c (some m.fresh)))
        m.ttl w)

  after_create : Result String × W → Reply Started × W
  unfolding presign_session
  after_create (err e, w) = (server_error, w)
  after_create (ok s3_id, w) =
      presign_session s3_id
        (presign_parts store w store.bucket_uploads the_key s3_id
          (all_part_numbers plan.total_parts))
        w

  -- Lines 113 to 164.
  unfoldable pub start_upload : W → Reply Started × W
  unfolding after_create
  start_upload w =
      after_create (store.create_multipart store.bucket_uploads the_key plan.content_type w)

-- The handler. No store is a misconfigured service.
unfoldable pub init_upload :
    {W : Type 0}
    → Redis W
    → Option (Objects W)
    → Env
    → Moment
    → Caller
    → Option UploadInitRequest
    → W
    → Reply Started × W
unfolding check_init start_upload
init_upload redis none env m c body w = (server_error, w)
init_upload redis (some store) env m c body w = elim (check_init env c body) [
  | reply r ↦ (r, w)
  | go plan ↦ start_upload redis store m c plan w
]
