-- ===== src/Jobs/Create/Handler.antt =====
-- `CreateJobFromTool` itself: its guards, the reservation of an idempotency key, and its return.
use Prim.Native.String.{◌++◌ as concat}
use fyredocs_backend.Prelude.{
  ℕ, String, Bool, true, false, ◌=ₛ◌, if◌then◌else◌, Option, none, some, [], ◌∷◌,
}
use fyredocs_backend.Store.{Result, ok, err}
use fyredocs_backend.Store.Redis.{Redis}
use fyredocs_backend.Store.Objects.{Objects}
use fyredocs_backend.Text.Space.{trim_space}
use fyredocs_backend.Uploads.Caller.{Caller}
use fyredocs_backend.Uploads.Session.{server_error, invalid_input}
use fyredocs_backend.Jobs.Tools.{normalize_tool_type, service_for_tool}
use fyredocs_backend.Jobs.Create.{
  JobBackend, NewJob, Fresh, Outcome, not_committed, committed, queued, existing_job,
}
use fyredocs_backend.Jobs.Create.Uploaded.{
  UploadJobRequest, already_processing, create_from_uploads,
}
use fyredocs_backend.Jobs.Create.Direct.{Form, create_direct}

-- The body, by the request's content type.
pub data Body : Type 0 where
  json : Option UploadJobRequest → Body
  multipart : Option Form → Body

-- Seconds.
abbrev pub idempotency_key_ttl : ℕ
idempotency_key_ttl = 600

unfoldable pub idempotency_redis_key : String → String
idempotency_redis_key key = concat "idempotency:" key

module _ {W : Type 0} (b : JobBackend W) (c : Caller) (f : Fresh) where
  unfoldable pub create_from : Objects W → String → Body → W → Outcome W
  create_from s tool (json req) w = create_from_uploads b c f tool req w
  create_from s tool (multipart form) w = create_direct b c f s tool form w

  -- The deferred release of a reservation, unless the job is stored.
  unfoldable pub release_reservation : Redis W → String → Outcome W → Outcome W
  release_reservation r key (answer, not_committed, w) =
      (answer, not_committed, (r.del (key ∷ []) w).1)
  release_reservation r key (answer, committed, w) = (answer, committed, w)
  release_reservation r key (answer, queued, w) = (answer, queued, w)

  -- The job that holds the key, if it names one that is stored.
  unfoldable pub holder : W → Result String → Option NewJob
  holder w (err e) = none
  holder w (ok id) = if id =ₛ "" then none else b.find_job w id

  -- Lines 97 to 113: somebody else holds the key.
  unfoldable pub taken : Redis W → String → W → Outcome W
  taken r key w = elim (holder w (r.get w key)) [
    | some job ↦ existing_job b c f job w
    | none ↦ (already_processing, not_committed, w)
  ]

  -- Lines 96 to 122, and on to the end. A reservation that fails is done without.
  unfoldable pub reserved : Redis W → String → (W → Outcome W) → Result Bool × W → Outcome W
  reserved r key rest (err e, w) = rest w
  reserved r key rest (ok false, w) = taken r key w
  reserved r key rest (ok true, w) = release_reservation r key (rest w)

  unfoldable pub with_reservation : Option (Redis W) → String → (W → Outcome W) → W → Outcome W
  with_reservation none key rest w = rest w
  with_reservation (some r) key rest w =
      let k = idempotency_redis_key key in
      let reserving = reserved r k rest (r.set_nx k f.job_id idempotency_key_ttl w) in
      if key =ₛ "" then rest w else reserving

  -- Lines 78 to 122, and on to the end.
  unfoldable pub with_store : Option (Objects W) → String → String → Body → W → Outcome W
  with_store none tool key body w = (server_error, not_committed, w)
  with_store (some s) tool key body w = with_reservation b.redis key (create_from s tool body) w

  unfoldable pub create_job_from_tool : String → String → Body → W → Outcome W
  create_job_from_tool tool key body w = elim (normalize_tool_type (trim_space tool)) [
    | none ↦ (invalid_input, not_committed, w)
    | some t ↦
        let running = with_store b.store t key body w in
        if service_for_tool t =ₛ "" then (invalid_input, not_committed, w) else running
  ]
