-- ===== src/Jobs/Create/Deferred.antt =====
-- The deferred functions of `CreateJobFromTool` (job-service/handlers/jobs.go), and what its reply
-- says with them.
use fyredocs_backend.Prelude.{◌≡◌, refl, String, Option, none, some, List, []}
use fyredocs_backend.Store.Redis.{Redis}
use fyredocs_backend.Store.Objects.{Objects}
use fyredocs_backend.Http.{success, failure}
use fyredocs_backend.Uploads.Caller.{Caller}
use fyredocs_backend.Jobs.Claims.{release_upload_claims}
use fyredocs_backend.Jobs.Create.{
  JobBackend, Fresh, InputFile, Inputs, Outcome, not_committed, committed, queued,
}
use fyredocs_backend.Jobs.Create.Uploaded.{release_after}
use fyredocs_backend.Jobs.Create.Handler.{Body, release_reservation}
use fyredocs_backend.Jobs.Create.Direct.{remove_unless_queued}
use fyredocs_backend.Jobs.Create.Underway.{Told, Sends, From, From-length, gives_back}

module _ {W : Type 0} (b : JobBackend W) (c : Caller) (f : Fresh) (s : Objects W)
    (tool : String) where
  release_none : (redis : Option (Redis W)) (w : W) → w ≡ release_upload_claims redis [] w
  unfolding release_upload_claims
  release_none none w = refl
  release_none (some r) w = refl

  -- The deferred functions, on what the handler's body returns.
  pub released-Told :
      (body : Body) (i : Inputs) (from : W) (ids : List String) (o : Outcome W)
      → From b c f s tool body i from
      → Sends b c f tool i from o
      → Told b c f s tool body (release_after b c f tool ids o)
  unfolding release_after
  released-Told body i from ids (success n x, queued, w) a h = record {
    inputs = i;
    from = from;
    at = w;
    claims = ids;
    asked = a;
    complete = From-length b c f s tool body i from a;
    sent = h;
    final = refl;
  }
  released-Told body i from ids (success n x, not_committed, w) a h = absurd h
  released-Told body i from ids (success n x, committed, w) a h = h
  released-Told body i from ids (failure n x, queued, w) a h = h
  released-Told body i from ids (failure n x, not_committed, w) a h = tt
  released-Told body i from ids (failure n x, committed, w) a h = tt

  pub removed-Told :
      (body : Body) (i : Inputs) (from : W) (files : List InputFile) (o : Outcome W)
      → From b c f s tool body i from
      → Sends b c f tool i from o
      → Told b c f s tool body (remove_unless_queued b c f s tool files o)
  unfolding remove_unless_queued
  removed-Told body i from files (success n x, queued, w) a h = record {
    inputs = i;
    from = from;
    at = w;
    claims = [];
    asked = a;
    complete = From-length b c f s tool body i from a;
    sent = h;
    final = release_none b.redis w;
  }
  removed-Told body i from files (success n x, not_committed, w) a h = absurd h
  removed-Told body i from files (success n x, committed, w) a h = h
  removed-Told body i from files (failure n x, queued, w) a h = h
  removed-Told body i from files (failure n x, not_committed, w) a h = tt
  removed-Told body i from files (failure n x, committed, w) a h = tt

  pub unreserved-Told :
      (body : Body) (r : Redis W) (key : String) (o : Outcome W)
      → Told b c f s tool body o
      → Told b c f s tool body (release_reservation b c f r key o)
  unfolding release_reservation
  unreserved-Told body r key (success n x, queued, w) h = h
  unreserved-Told body r key (success n x, not_committed, w) h = record {
    at = h.at;
    id = h.id;
    found = h.found;
    ended = gives_back r key h.ended;
  }
  unreserved-Told body r key (success n x, committed, w) h = h
  unreserved-Told body r key (failure n x, queued, w) h = h
  unreserved-Told body r key (failure n x, not_committed, w) h = tt
  unreserved-Told body r key (failure n x, committed, w) h = tt
