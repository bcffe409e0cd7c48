-- ===== src/Jobs/Create/Dispatched.antt =====
-- Whoever is told that a file is being processed has a job that is (`CreateJobFromTool` of
-- job-service/handlers/jobs.go).
use fyredocs_backend.Store.Redis.{Redis}
use fyredocs_backend.Store.Objects.{Objects}
use fyredocs_backend.Uploads.Caller.{Caller}
