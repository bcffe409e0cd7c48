-- ===== src/Lib.antt =====
-- The Fyredocs backend: a model of its core Go services, and what is proved of them.
--
-- The system: browsers talk to api-gateway, which authenticates, limits the rate and forwards.
-- job-service takes uploads straight into an object store (presigned multipart), turns them into
-- jobs and dispatches these over NATS JetStream; four workers (convert-to-pdf, convert-from-pdf,
-- organize-pdf, optimize-pdf) process them and publish events; user-service keeps organizations,
-- auth-service accounts and sessions.
--
-- Modules:
--   * Uploads: job-service/handlers/uploads.go. Uploads.Caller (uploadOwnerID and the plan
--     limits), Uploads.Session (a session is a Redis hash), Uploads.Parts, Uploads.Init
--     (InitUpload), Uploads.Complete, Uploads.Abort, Uploads.Read (GetUploadParts,
--     GetUploadStatus). A handler is a function from the world to a reply and a world; a request
--     body that does not bind is `none`.
--   * Jobs.Claims: claimUploads and releaseUploadClaims of job-service/handlers/jobs.go, for one
--     request and, in Jobs.Claims.Interleaving, for requests whose rounds interleave, with crashes
--     and with the expiry of claims that no request holds.
--   * Jobs.Consume: consumeUpload, releaseUpload, recordConsumedUpload,
--     findExistingJobForUploads.
--   * Jobs.Create: CreateJobFromTool. Jobs.Create (from the row to the dispatch),
--     Jobs.Create.Uploaded (the JSON branch), Jobs.Create.Direct (the multipart branch,
--     storeDirectUpload), Jobs.Create.Handler (the guards and the reservation). Deferred functions
--     are applied to the outcome in their order; the outcome keeps the flags that they ask
--     (Progress).
--   * Jobs.Access: authorizeJobAccess, the guests' job lists, jobExpiry and DeleteJobByID.
--   * Jobs.Cleanup: job-service/internal/cleanup/cleanup.go, the sweep under its lock.
--   * Jobs.Tools: job-service/internal/routing/routing.go and the tables of names, extensions
--     and MIME types of job-service/handlers/jobs.go.
--   * Worker: processMessage and handleFailure of optimize-pdf/internal/worker/worker.go with
--     tmpfs.go and the cache's lookup, and what Run does after a panic. A delivery is a function
--     from the outside's answers to the list of its effects, one function per stage of the Go
--     function.
--   * Orgs: the membership handlers of user-service/handlers/orgs.go and the roles of
--     user-service/internal/models/org.go.
--   * Auth: auth-service/handlers/auth.go, password_reset.go and proxy_login.go. Auth.Accounts
--     (accounts and plans), Auth.Rows (the statements of internal/models/token.go and
--     password_reset.go), Auth.Issuer (internal/token), Auth.Backend (AuthEndpoints, the plan
--     caches, shared/authverify's denylist), Auth.Cookies, Auth.Grant (respondWithTokens),
--     Auth.Login, Auth.Refresh, Auth.Logout, Auth.Plans, Auth.Reset, Auth.Proxy. The world has the
--     tables, the Redis, the plan cache, the events and the mails; the conditions of the SQL are
--     Boolean tests on rows, over Store.Table.
--   * Gateway.RateLimit: api-gateway/internal/ratelimit/ratelimit.go.
--   * Config: numbers of shared/config. Http: replies (status and code; texts are left out).
--   * Text: the functions of Go's strings, strconv and path/filepath that the services call.
--   * Store: Redis and the object store as records of operations; the clients take them as
--     parameters, and the laws that a property needs are its hypotheses (KeyLaws, MultipartLaws,
--     ScoreLaws, RowLaws, TableLaws).
--   * Prelude: shared names and lemmas. Tests: instances of the parameters, and runs.
--
-- Numbers are natural numbers, or ℤ of Prelude.Int where the source has signed ones; int64 products
-- and sums wrap round where the source computes them, and a float64 quotient is rounded to 53 bits
-- (Uploads.Init). Loops are structural recursion; fuel is used by `itoa`, 20
-- digits, which is enough for every int64, and by the sweep's loop over batches, for which more fuel
-- than expired jobs is enough. UUIDs are texts, and uuid.Parse is a parameter.
--
-- Not modelled: validateToolOptions (a parameter of Jobs.Create), the downloads and lists of jobs, the
-- admin handlers and the verifier of tokens, documents, analytics, notifications, the PDF tools, the
-- expiry of keys, but for claims that nobody holds (a request that outlives its claims' 600 seconds
-- would release another's), the loop of the workers' Run and the effects of a message up to a panic.
-- Of failing writes to Redis or the database nothing is assumed beyond the laws and hypotheses named.
mod Prelude
pub mod Text
pub mod Http
pub mod Store
pub mod Config
pub mod Uploads
pub mod Jobs
pub mod Worker
pub mod Orgs
pub mod Auth
pub mod Gateway
mod Tests
