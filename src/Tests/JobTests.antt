-- ===== src/Tests/JobTests.antt =====
-- Consumed uploads, jobs submitted twice and deletions at concrete inputs.
use fyredocs_backend.Prelude.{
  String, false, ◌≡◌, refl, Option, none, some, [], ◌∷◌, All, if◌then◌else◌, ◌=ₛ◌,
}
use fyredocs_backend.Config.{Env, max_upload_bytes, get_env_int}
use fyredocs_backend.Store.{ok}
use fyredocs_backend.Store.Redis.{Fields}
use fyredocs_backend.Http.{go}
use fyredocs_backend.Text.Space.{to_lower}
use fyredocs_backend.Text.Paths.{ext}
use fyredocs_backend.Uploads.Caller.{Caller}
use fyredocs_backend.Uploads.Session.{field, upload_state_key}
use fyredocs_backend.Jobs.Tools.{
  one_of, validate_file_type, mime_category, allowed_mime_types, validate_mime_head,
}
use fyredocs_backend.Jobs.Consume.{
  ConsumedUpload, check_contents, check_object, bucket_of, check_session, read_session,
  consume_upload, consumed_upload_key, consumer, same_consumer, find_existing_job,
}
use fyredocs_backend.Jobs.Consume.Usable.{IsUsable, consume_upload-IsUsable}
use fyredocs_backend.Jobs.Consume.Existing.{ConsumedBy, find_existing_job_lem}
use fyredocs_backend.Jobs.Access.{JobStore, delete_job_by_id}
use fyredocs_backend.Jobs.Access.Deletion.{Guarded, delete_job_by_id-Guarded}
use fyredocs_backend.Tests.FakeRedis.{Keys, fake_redis}
use fyredocs_backend.Tests.FakeStore.{World, fake_hashes, fake_store}

abbrev no_env : Env
no_env = λ key. ""

abbrev session : Fields
session = ("fileName", "report.pdf") ∷ ("bucket", "") ∷ ("key", "uploads/u1/report.pdf") ∷ []

abbrev uploaded : World
uploaded = record { hashes = ("upload:u1", session) ∷ []; is_open = false }

abbrev consumed : ConsumedUpload
consumed = record { key = "uploads/u1/report.pdf"; original_name = "report.pdf"; size = 6000000 }

abbrev sniff : String → String
sniff head = "application/pdf"

consumes :
    consume_upload (some fake_hashes) (some fake_store) no_env sniff "merge-pdf" uploaded "u1"
    ≡ go consumed
unfolding consume_upload read_session check_session check_object check_contents bucket_of field
    upload_state_key validate_file_type validate_mime_head mime_category allowed_mime_types one_of
    to_lower ext max_upload_bytes get_env_int
consumes = refl

consume_upload-IsUsable_example :
    IsUsable fake_hashes fake_store no_env sniff "merge-pdf" uploaded "u1" consumed
consume_upload-IsUsable_example =
    consume_upload-IsUsable fake_hashes fake_store no_env sniff "merge-pdf" uploaded "u1" consumed
      consumes

abbrev records : Keys
records = ("idempotency:upload:a", "j1") ∷ ("idempotency:upload:b", "j1") ∷ []

abbrev find_job : Keys → String → Option String
find_job w id = if id =ₛ "j1" then some "job 1" else none

finds : find_existing_job (some fake_redis) find_job ("a" ∷ "b" ∷ []) records ≡ some "job 1"
unfolding find_existing_job same_consumer consumer consumed_upload_key
finds = refl

find_existing_job_lem_example :
    (j : String) × All (ConsumedBy fake_redis records j) ("a" ∷ "b" ∷ [])
    × (find_job records j ≡ some "job 1")
find_existing_job_lem_example =
    find_existing_job_lem fake_redis find_job ("a" ∷ "b" ∷ []) records "job 1" finds

abbrev one_job : JobStore World
one_job = record {
  first_job = λ w id tool. some (record { id = id; user_id = some "alice"; tool_type = tool });
  files_of = λ w job. ok (record { kind = "input"; path = "uploads/u1/report.pdf" } ∷ []);
  delete_files = λ job w. w;
  delete_job = λ job w. (ok tt, w);
}

abbrev bob : Caller
bob = record {
  user_id = some "bob";
  guest_token = "";
  plan_max_file_mb = "";
  plan_max_files = "";
  plan_name = "free";
}

delete_job_by_id-Guarded_example :
    Guarded fake_hashes bob one_job
      (some fake_store)
      uploaded
      "j1"
      (delete_job_by_id (some fake_hashes) bob one_job (some fake_store) "merge-pdf" "j1" uploaded)
delete_job_by_id-Guarded_example =
    delete_job_by_id-Guarded fake_hashes bob one_job (some fake_store) "merge-pdf" "j1" uploaded
