-- ===== src/Tests/UploadTests.antt =====
-- Uploads at concrete inputs.
use fyredocs_backend.Prelude.{
  subst, String, true, false, ◌≡◌, refl, none, some, List, [], ◌∷◌, arith,
}
use fyredocs_backend.Prelude.Int.{pos}
use fyredocs_backend.Config.{Env, get_env_int}
use fyredocs_backend.Store.{ok}
use fyredocs_backend.Store.Redis.{Fields}
use fyredocs_backend.Http.{Reply, success, go}
use fyredocs_backend.Text.Space.{trim_space}
use fyredocs_backend.Text.Paths.{base}
use fyredocs_backend.Text.Decimal.{itoa, atoi}
use fyredocs_backend.Uploads.Caller.{Caller, plan_max_file_size_mb, upload_owner_id}
use fyredocs_backend.Uploads.Session.{
  field, fetch_upload_state, upload_owner_matches, open_session, upload_state_key,
}
use fyredocs_backend.Uploads.Parts.{sanitize_file_name, upload_part_size}
use fyredocs_backend.Uploads.Init.{
  UploadInitRequest, Plan, Moment, Started, check_init, size_limit, parts_needed,
  float_ceil_quotient, session_fields, start_upload,
}
use fyredocs_backend.Uploads.Init.Checks.{IsAdmissible, check_init-IsAdmissible}
use fyredocs_backend.Uploads.Init.NoLeak.{Clean, start_upload-no_leak}
use fyredocs_backend.Uploads.Complete.{UploadCompletedPart, Completed, complete_upload, total_parts}
use fyredocs_backend.Uploads.Complete.Verified.{IsVerified, complete_upload-IsVerified}
use fyredocs_backend.Uploads.Ownership.{IsForeign, Refused, foreign_session_gone}
use fyredocs_backend.Uploads.RoundTrip.{with_cookie, session_fields_round_trip}
use fyredocs_backend.Tests.FakeStore.{World, fake_hashes, fake_store, opened, fake-MultipartLaws}

abbrev no_env : Env
no_env = λ key. ""

abbrev user : String → Caller
user id = record {
  user_id = some id;
  guest_token = "";
  plan_max_file_mb = "50";
  plan_max_files = "";
  plan_name = "pro";
}

abbrev guest : Caller
guest = record (user "") { user_id = none }

abbrev report_plan : Plan
report_plan = record {
  file_name = "report.pdf";
  file_size = 6000000;
  content_type = "application/octet-stream";
  part_size = 8388608;
  total_parts = 1;
}

abbrev request : UploadInitRequest
request = record { file_name = "/tmp/report.pdf"; file_size = pos 6000000; content_type = " " }

planned : check_init {B = Started} no_env (user "alice") (some request) ≡ go report_plan
unfolding check_init sanitize_file_name upload_part_size size_limit parts_needed
    plan_max_file_size_mb trim_space base get_env_int atoi
planned = refl

-- A size of 2 ^ 53 + 1 rounds to 2 ^ 53.
one_part_short : parts_needed 9007199254740993 9007199254740992 ≡ 1
unfolding parts_needed float_ceil_quotient
one_part_short = refl

floats_agree : float_ceil_quotient 52428801 5242880 ≡ 11
unfolding float_ceil_quotient
floats_agree = refl

check_init-IsAdmissible_example :
    (req : UploadInitRequest) × (some request ≡ some req)
    × IsAdmissible no_env (user "alice") req report_plan
check_init-IsAdmissible_example =
    check_init-IsAdmissible no_env (user "alice") (some request) Started report_plan planned
      (omega arith)

abbrev moment : Moment
moment = record { now = "2025-01-01T00:00:00Z"; upload_id = "u1"; fresh = "g1"; ttl = 3600 }

abbrev empty_world : World
empty_world = record { hashes = []; is_open = false }

start_upload-no_leak_example :
    Clean fake_hashes fake_store opened fake-MultipartLaws
      (λ b k id w. refl)
      moment
      (user "alice")
      report_plan
      empty_world
      (start_upload fake_hashes fake_store moment (user "alice") report_plan empty_world)
start_upload-no_leak_example =
    start_upload-no_leak fake_hashes fake_store opened fake-MultipartLaws (λ b k id w. refl) moment
      (user "alice") report_plan empty_world "mp" refl

abbrev session : Fields
session = session_fields report_plan "uploads" "uploads/u1/report.pdf" "mp" "now" "user:alice"

abbrev open_world : World
open_world = record { hashes = ("upload:u1", session) ∷ []; is_open = true }

abbrev one_part : List UploadCompletedPart
one_part = record { part_number = pos 1; etag = "e1" } ∷ []

abbrev completed : Completed
completed = record { upload_id = "u1"; file_name = "report.pdf"; size = 6000000 }

abbrev completed_run : Reply Completed × World
completed_run =
    complete_upload fake_hashes (some fake_store) no_env 3600 (user "alice") "u1" (some one_part)
      open_world

completes : completed_run ≡ (success 200 completed, completed_run.1)
unfolding complete_upload open_session session_fields fetch_upload_state upload_state_key
    upload_owner_matches upload_owner_id itoa atoi size_limit plan_max_file_size_mb get_env_int
completes = refl

complete_upload-IsVerified_example :
    IsVerified fake_hashes fake_store no_env 3600 (user "alice") "u1" one_part open_world completed
complete_upload-IsVerified_example =
    complete_upload-IsVerified fake_hashes fake_store no_env 3600 (user "alice") "u1" one_part
      open_world completed_run.1 completed completes

foreign : IsForeign (user "bob") session
unfolding session_fields field upload_owner_id
foreign = record { owned = λ e. cc; other = λ e. cc }

stored : fetch_upload_state fake_hashes open_world "u1" ≡ ok session
unfolding fetch_upload_state upload_state_key session_fields
stored = refl

ok_fields : (x y : Fields) → ok x ≡ ok y → x ≡ y
ok_fields x y e = cc

foreign_session_gone_example :
    Refused fake_hashes fake_store no_env 3600
      (user "bob")
      "u1"
      (λ e. cc)
      open_world
      "1"
      one_part
      (ok session)
foreign_session_gone_example =
    foreign_session_gone fake_hashes fake_store no_env 3600 (user "bob") "u1" (λ e. cc) open_world
      "1" one_part (ok session) stored
      (λ state e. subst (IsForeign (user "bob")) (ok_fields session state e) foreign)

session_fields_round_trip_example :
    let state =
      session_fields report_plan "uploads" "k" "mp" "now" (upload_owner_id guest (some "g1")) in
    (upload_owner_matches (with_cookie "g1" guest) state ≡ true)
    × (total_parts state ≡ pos 1)
    × (field state "bucket" ≡ "uploads")
    × (field state "key" ≡ "k")
    × (field state "s3UploadId" ≡ "mp")
    × (field state "fileName" ≡ "report.pdf")
session_fields_round_trip_example =
    session_fields_round_trip report_plan "uploads" "k" "mp" "now" "g1" guest (λ e. cc)
      (omega arith)
