-- ===== src/Tests/CreateTests.antt =====
-- Creating jobs at concrete inputs.
use fyredocs_backend.Prelude.{ℕ, String, true, ◌≡◌, refl, none, some, [], ◌∷◌, Bool-cases, inl, inr}
use fyredocs_backend.Store.{ok, err, not_found, Fault}
use fyredocs_backend.Store.Objects.{Objects}
use fyredocs_backend.Http.{failure}
use fyredocs_backend.Text.Space.{trim_space}
use fyredocs_backend.Prelude.Int.{pos}
use fyredocs_backend.Config.{get_env_int, guest_max_files_per_job}
use fyredocs_backend.Uploads.Caller.{Caller, plan_max_files_per_job}
use fyredocs_backend.Jobs.Tools.{normalize_tool_type, service_for_tool}
use fyredocs_backend.Jobs.Claims.{
  claim_uploads, claim_from, claim_round, release_upload_claims, upload_claim_key,
}
use fyredocs_backend.Jobs.Consume.{find_existing_job, same_consumer, consumer, consumed_upload_key}
use fyredocs_backend.Jobs.Create.{JobBackend, NewJob, Fresh, Outcome, not_committed}
use fyredocs_backend.Jobs.Create.Uploaded.{
  requested_ids, create_from_uploads, claim_new, with_claims,
}
use fyredocs_backend.Jobs.Create.Handler.{
  Body, json, multipart, create_from, idempotency_redis_key, reserved, release_reservation,
  with_reservation, with_store, create_job_from_tool,
}
use fyredocs_backend.Jobs.Create.Restores.{Answers}
use fyredocs_backend.Jobs.Create.Restores.Reserved.{create_job_from_tool-Kept}
use fyredocs_backend.Jobs.Create.Idempotent.{create_job_from_tool-once}
use fyredocs_backend.Tests.FakeRedis.{Keys, fake_redis, fake-KeyLaws, has}

-- An object store that keeps nothing in Redis.
abbrev objects : Objects Keys
objects = record {
  bucket_uploads = "uploads";
  bucket_outputs = "outputs";
  stat_object = λ w bucket key. err not_found;
  get_object_range = λ w bucket key from count. err not_found;
  presign_upload_part = λ w bucket key id n. ok "";
  create_multipart = λ bucket key kind w. (ok "mp", w);
  complete_multipart = λ bucket key id parts w. (ok tt, w);
  abort_multipart = λ bucket key id w. (ok tt, w);
  remove_object = λ bucket key w. (ok tt, w);
  put_object = λ bucket key size w. (ok tt, w);
}

abbrev jobs : JobBackend Keys
jobs = record {
  redis = some fake_redis;
  store = some objects;
  find_job = λ w id. none;
  insert_job = λ job w. (ok tt, w);
  insert_file = λ id file w. (ok tt, w);
  commit = λ w. ok tt;
  publish_job = λ event w. (ok tt, w);
  publish_created = λ job w. w;
  publish_limit_hit = λ kind tool w. w;
  check_options = λ tool options. true;
  json_valid = λ raw. true;
  detect = λ head. "application/pdf";
  env = λ key. "";
  ttls = record { guest = 1800; free = 86400; pro = 604800 };
}

abbrev guest : Caller
guest = record {
  user_id = none;
  guest_token = "g1";
  plan_max_file_mb = "";
  plan_max_files = "";
  plan_name = "";
}

abbrev fresh : Fresh
fresh = record { now = 1000; job_id = "j1"; correlation_id = "c1"; guest_token = "g2" }

never_fails :
    (k v : String) (t : ℕ) (w : Keys) (e : Fault) → (fake_redis.set_nx k v t w).0 ≡ err e → ⊥
never_fails k v t w e h = elim (Bool-cases (has w k)) [
  | inl there ↦ let h' = rw there at h in cc
  | inr absent ↦ let h' = rw absent at h in cc
]

answering : Answers fake_redis has
answering = record { laws = fake-KeyLaws; del_works = λ ks w. refl; set_nx_works = never_fails }

-- Somebody else is at work on the second upload.
abbrev busy : Keys
busy = ("claim:upload:u2", "1") ∷ []

abbrev two_uploads : Body
two_uploads = json (some (record { upload_id = ""; upload_ids = "u1" ∷ "u2" ∷ []; options = "" }))

abbrev answer : Outcome Keys
answer = create_job_from_tool jobs guest fresh "merge-pdf" "once" two_uploads busy

conflicts : answer ≡ (failure 409 "ALREADY_PROCESSING", not_committed, answer.2)
unfolding create_job_from_tool normalize_tool_type trim_space service_for_tool with_store
    with_reservation reserved create_from create_from_uploads requested_ids plan_max_files_per_job
    get_env_int claim_new find_existing_job same_consumer consumer consumed_upload_key claim_uploads
    claim_from claim_round release_upload_claims upload_claim_key with_claims release_reservation
    idempotency_redis_key guest_max_files_per_job
conflicts = refl

puts_no_key :
    (s : Objects Keys)
    → some objects ≡ some s
    → (bucket key : String) (size : ℕ) (w : Keys) (j : String)
    → has (s.put_object bucket key size w).1 j ≡ has w j
puts_no_key s e bucket key size w j = let same : objects ≡ s = cc in rw⁻¹ same refl

removes_no_key :
    (s : Objects Keys)
    → some objects ≡ some s
    → (bucket key : String) (w : Keys) (j : String)
    → has (s.remove_object bucket key w).1 j ≡ has w j
removes_no_key s e bucket key w j = let same : objects ≡ s = cc in rw⁻¹ same refl

create_job_from_tool-Kept_example : has answer.2 "claim:upload:u1" ≡ has busy "claim:upload:u1"
create_job_from_tool-Kept_example =
    create_job_from_tool-Kept has jobs guest fresh answering (λ kind tool w j. refl) puts_no_key
      removes_no_key "merge-pdf" "once" two_uploads busy 409 "ALREADY_PROCESSING" answer.2 conflicts
      "claim:upload:u1"

abbrev reserved_key : Keys
reserved_key = ("idempotency:once", "j0") ∷ []

create_job_from_tool-once_example :
    (create_job_from_tool jobs guest fresh "merge-pdf" "once" two_uploads reserved_key).1
    ≡ not_committed
unfolding idempotency_redis_key
create_job_from_tool-once_example =
    create_job_from_tool-once has jobs guest fresh fake_redis answering "merge-pdf" "once"
      two_uploads reserved_key refl refl refl

-- A PDF that comes with the request.
abbrev one_file : Body
one_file = multipart (
    some (record {
      files = record { filename = "a.pdf"; size = 100; head = ok "%PDF" } ∷ [];
      options = [];
    }))

abbrev created_job : NewJob
created_job = record {
  id = "j1";
  user_id = none;
  tool_type = "compress-pdf";
  file_name = "a.pdf";
  file_size = pos 100;
  options = "";
  correlation_id = "c1";
  expires_at = 2800;
}
