-- ===== src/Tests/FakeOutside.antt =====
-- An outside in which every call succeeds, but for the tool, which may fail.
use fyredocs_backend.Prelude.{ℕ, true, false, none, some, [], ◌∷◌, ◌=ₛ◌}
use fyredocs_backend.Store.{ok}
use fyredocs_backend.Worker.Effects.{JobPayload}
use fyredocs_backend.Worker.Outside.{
  Try, done, fails, ProcessResult, WorkerConfig, Message, Outside,
}

abbrev pub config : WorkerConfig
config = record {
  service_name = "organize-pdf";
  allowed_tools = λ tool. tool =ₛ "merge-pdf";
  has_jet_stream = true;
  has_redis = false;
}

abbrev pub payload : JobPayload
payload = record {
  event_type = "JobCreated";
  job_id = "j1";
  tool_type = "merge-pdf";
  input_paths = "uploads/a.pdf" ∷ "uploads/b.pdf" ∷ [];
  options = "";
  attempts = 0;
  correlation_id = "c1";
}

abbrev pub delivery : ℕ → Message
delivery n = record { payload = some payload; num_delivered = some n }

abbrev pub outside : Try ProcessResult → Outside
outside result = record {
  parse_uuid = λ id. some id;
  job_status = λ job. ok "queued";
  cache_ttl = 0;
  input_etags = λ keys. none;
  cache_key = λ tool options etags. "";
  cache_get = λ key. none;
  stat_output = λ key. none;
  copy_output = λ from to. false;
  make_scratch = done tt;
  object_size = λ key. done 1000;
  env = λ key. "";
  take_large_slot = done tt;
  fetch_input = λ key. done tt;
  make_out_dir = done tt;
  process = λ tool inputs options. result;
  upload_output = λ key. done 1500;
  create_output_row = λ key size. done tt;
}

abbrev pub merged : Try ProcessResult
merged = done (record { output_name = "merged.pdf"; metadata = "" })

abbrev pub timed_out : Try ProcessResult
timed_out = fails (record { text = "context deadline exceeded"; marked = true; has_timeout = true })
