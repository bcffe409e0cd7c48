-- ===== src/Uploads/Caller.antt =====
-- Who makes a request to the job-service, with the plan limits that the gateway's headers state
-- (`guestToken`, `planMaxFileSizeMB`, `planMaxFilesPerJob` of job-service/handlers/jobs.go and
-- `uploadOwnerID` of job-service/handlers/uploads.go).
use Prim.Native.String.{◌++◌ as concat}
use fyredocs_backend.Prelude.{ℕ, String, Option, none, some, ◌=ₛ◌, if◌then◌else◌}
use fyredocs_backend.Prelude.Int.{ℤ}
use fyredocs_backend.Text.Decimal.{atoi}
use fyredocs_backend.Config.{Env, positive_or, guest_max_file_size_mb, guest_max_files_per_job}

-- `user_id` is what `authUserID` finds in the verified token. An absent cookie or header is "".
pub record Caller : Type 0 where
  pub user_id : Option String
  pub guest_token : String
  pub plan_max_file_mb : String
  pub plan_max_files : String
  pub plan_name : String

-- A header's number, if it is one and above 0.
abbrev limit_or : ℕ → Option ℤ → ℕ
limit_or d none = d
limit_or d (some n) = positive_or d n

unfoldable pub plan_max_file_size_mb : Env → Caller → ℕ
plan_max_file_size_mb env c =
    if c.plan_max_file_mb =ₛ ""
    then guest_max_file_size_mb env
    else limit_or (guest_max_file_size_mb env) (atoi c.plan_max_file_mb)

unfoldable pub plan_max_files_per_job : Env → Caller → ℕ
plan_max_files_per_job env c =
    if c.plan_max_files =ₛ ""
    then guest_max_files_per_job env
    else limit_or (guest_max_files_per_job env) (atoi c.plan_max_files)

-- `mint` is the fresh token if one may be made.
abbrev guest_owner : String → Option String → String
guest_owner token none = if token =ₛ "" then "" else concat "guest:" token
guest_owner token (some fresh) =
    if token =ₛ "" then concat "guest:" fresh else concat "guest:" token

abbrev owner_of : Option String → String → Option String → String
owner_of (some uid) token mint = concat "user:" uid
owner_of none token mint = guest_owner token mint

unfoldable pub upload_owner_id : Caller → Option String → String
upload_owner_id c mint = owner_of c.user_id c.guest_token mint
