-- ===== src/Store/Objects.antt =====
-- The object store behind the job-service (the interface `ObjectStore` of
-- job-service/handlers/storage.go, over shared/storage and MinIO).
use fyredocs_backend.Prelude.{ℕ, String, List}
use fyredocs_backend.Store.Faults.{Result}

pub record ObjectInfo : Type 0 where
  pub size : ℕ
  pub etag : String

pub record CompletedPart : Type 0 where
  pub part_number : ℕ
  pub etag : String

-- Presigning computes a URL and changes nothing. `PresignGet`'s expiry and parameters are those of
-- its only call; the head that `get_object_range` reads is the first 512 bytes.
pub record Objects (W : Type 0) : Type 0 where
  pub bucket_uploads : String
  pub bucket_outputs : String
  pub stat_object : W → String → String → Result ObjectInfo
  pub get_object_range : W → String → String → ℕ → ℕ → Result String
  pub presign_upload_part : W → String → String → String → ℕ → Result String
  pub create_multipart : String → String → String → W → Result String × W
  pub complete_multipart : String → String → String → List CompletedPart → W → Result (Unit {0}) × W
  pub abort_multipart : String → String → String → W → Result (Unit {0}) × W
  pub remove_object : String → String → W → Result (Unit {0}) × W
  pub put_object : String → String → ℕ → W → Result (Unit {0}) × W
