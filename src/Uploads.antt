-- ===== src/Uploads.antt =====
-- job-service: the presigned multipart upload protocol (job-service/handlers/uploads.go).
pub mod Caller
pub mod Session
pub mod Parts
pub mod Init
pub mod Complete
pub mod Abort
pub mod Read
pub mod Ownership
pub mod RoundTrip
