-- ===== src/Jobs/Create/Underway.antt =====
-- What a reply to a request for a job may say: of one job, up to its dispatch.
use fyredocs_backend.Prelude.{
  ℕ, length, ◌≡◌, refl, sym, ap, String, ◌=ₛ◌, Option, none, some, List, [], ◌∷◌, inl, inr,
  Bool-cases,
}
use fyredocs_backend.Store.{Result, ok, err}
use fyredocs_backend.Store.Redis.{Redis}
use fyredocs_backend.Store.Objects.{Objects}
use fyredocs_backend.Http.{success, failure, go}
use fyredocs_backend.Uploads.Caller.{Caller}
use fyredocs_backend.Jobs.Tools.{service_for_tool}
use fyredocs_backend.Jobs.Access.{assign_guest_token}
use fyredocs_backend.Jobs.Claims.{release_upload_claims}
use fyredocs_backend.Jobs.Consume.{find_existing_job}
use fyredocs_backend.Jobs.Create.{
  JobBackend, NewJob, Fresh, dispatch_of, new_job, Inputs, Outcome, not_committed, committed,
  queued, store_job, record_uploads, stored, dispatched, queue_job, existing_job,
}
use fyredocs_backend.Jobs.Create.Inserted.{
  IsStored, store_job-IsStored, consumed-length, stored-length,
}
use fyredocs_backend.Jobs.Create.Uploaded.{consume_all, requested_ids}
use fyredocs_backend.Jobs.Create.Direct.{store_files}
use fyredocs_backend.Jobs.Create.Handler.{Body, json, multipart}
use fyredocs_backend.Jobs.Consume.Existing.{find_existing_job_lem}

module _ {W : Type 0} (b : JobBackend W) (c : Caller) (f : Fresh) where
  -- The world once a guest's token lists the job.
  abbrev pub listed : W → W
  listed after =
      (assign_guest_token b.redis c b.ttls.guest f.guest_token c.user_id f.job_id after).1

  -- The job of the inputs is stored from the world `from` on and its dispatch published; then the
  -- uploads are recorded as consumed and the event published that tells of the job.
  pub record IsSent (tool : String) (i : Inputs) (from : W) (job : NewJob) (w' : W) : Type 0 where
    pub is_job : job ≡ new_job b c f tool i
    pub after : W
    pub stored_rows : IsStored b c f (new_job b c f tool i) i.files from after
    pub publishes : (b.publish_job (dispatch_of b c f tool i) (listed after)).0 ≡ ok tt
    pub final :
        w'
        ≡ b.publish_created (new_job b c f tool i) (
            record_uploads b c f i.upload_ids
              (b.publish_job (dispatch_of b c f tool i) (listed after)).1)

  -- The inputs are all that the body asks for: every upload is consumed, or every file stored.
  abbrev pub From : Objects W → String → Body → Inputs → W → Type 0
  From s tool (json none) i from = ⊥
  From s tool (json (some req)) i from =
      (consume_all b c f tool from [] (requested_ids req) ≡ go i.files)
      × (i.upload_ids ≡ requested_ids req)
  From s tool (multipart none) i from = ⊥
  From s tool (multipart (some form)) i from =
      ((w : W) × (store_files b c f s tool [] form.files w ≡ (go tt, i.files, from)))
      × (i.upload_ids ≡ [])

  -- How many uploads or files the body has.
  abbrev pub asked_for : Body → ℕ
  asked_for (json none) = 0
  asked_for (json (some req)) = length (requested_ids req)
  asked_for (multipart none) = 0
  asked_for (multipart (some form)) = length form.files

  pub From-length :
      (s : Objects W) (tool : String) (body : Body) (i : Inputs) (from : W)
      → From s tool body i from
      → length i.files ≡ asked_for body
  From-length s tool (json none) i from a = absurd a
  From-length s tool (json (some req)) i from (a, e) =
      consumed-length b c f tool from i.files (requested_ids req) a
  From-length s tool (multipart none) i from a = absurd a
  From-length s tool (multipart (some form)) i from ((w, a), e) =
      stored-length b c f tool s i.files form.files w from a

  -- The job of the body is sent; last, the claims that the request held are released.
  pub record IsUnderway (s : Objects W) (tool : String) (body : Body) (job : NewJob) (w' : W)
      : Type 0 where
    pub inputs : Inputs
    pub from : W
    pub at : W
    pub claims : List String
    pub asked : From s tool body inputs from
    pub complete : length inputs.files ≡ asked_for body
    pub sent : IsSent tool inputs from job at
    pub final : w' ≡ release_upload_claims b.redis claims at

  -- What a known job's answer does to the world `v` in which it is found: a guest's token lists the
  -- job, and keys may be given back.
  pub data Answered (job : NewJob) (v : W) : W → Type 0 where
    lists :
        Answered job v
          (assign_guest_token b.redis c b.ttls.guest f.guest_token c.user_id job.id v).1
    gives_back :
        {w' : W} (r : Redis W) (key : String)
        → Answered job v w'
        → Answered job v (r.del (key ∷ []) w').1

  pub record IsKnown (job : NewJob) (w' : W) : Type 0 where
    pub at : W
    pub id : String
    pub found : b.find_job at id ≡ some job
    pub ended : Answered job at w'

  -- What the reply, the progress and the world at the return may be together.
  abbrev pub Told : Objects W → String → Body → Outcome W → Type 0
  Told s tool body (success n x, queued, w') = IsUnderway s tool body x.job w'
  Told s tool body (success n x, not_committed, w') = IsKnown x.job w'
  Told s tool body (success n x, committed, w') = ⊥
  Told s tool body (failure n code, queued, w') = ⊥
  Told s tool body (failure n code, committed, w') = Unit
  Told s tool body (failure n code, not_committed, w') = Unit

  -- The same of the part that both kinds of body share, which answers for no job but its own.
  abbrev pub Sends : String → Inputs → W → Outcome W → Type 0
  Sends tool i from (success n x, queued, w') = IsSent tool i from x.job w'
  Sends tool i from (success n x, not_committed, w') = ⊥
  Sends tool i from (success n x, committed, w') = ⊥
  Sends tool i from (failure n code, queued, w') = ⊥
  Sends tool i from (failure n code, committed, w') = Unit
  Sends tool i from (failure n code, not_committed, w') = Unit

  pub existing_job-Told :
      (s : Objects W) (tool : String) (body : Body) (job : NewJob) (v : W) (id : String)
      → b.find_job v id ≡ some job
      → Told s tool body (existing_job b c f job v)
  unfolding existing_job
  existing_job-Told s tool body job v id e = record { at = v; id = id; found = e; ended = lists }

  dispatched-Sends :
      (tool : String) (i : Inputs) (token : String) (from after : W) (r : Result (Unit {0}) × W)
      → IsStored b c f (new_job b c f tool i) i.files from after
      → b.publish_job (dispatch_of b c f tool i) (listed after) ≡ r
      → Sends tool i from (dispatched b c f (new_job b c f tool i) i.upload_ids token r)
  unfolding dispatched
  dispatched-Sends tool i token from after (err e, w) s k = tt
  dispatched-Sends tool i token from after (ok tt, w) s k = record {
    is_job = refl;
    after = after;
    stored_rows = s;
    publishes = ap (λ (x : Result (Unit {0}) × W). x.0) k;
    final =
        ap
          (λ (x : Result (Unit {0}) × W).
            b.publish_created (new_job b c f tool i) (record_uploads b c f i.upload_ids x.1))
          (sym k);
  }

  stored-Sends :
      (tool : String) (i : Inputs) (from : W) (r : Result (Unit {0}) × W)
      → store_job b c f (new_job b c f tool i) i.files from ≡ r
      → Sends tool i from (stored b c f tool i r)
  unfolding stored
  stored-Sends tool i from (err e, w) k = tt
  stored-Sends tool i from (ok tt, w) k = elim (Bool-cases (service_for_tool tool =ₛ "")) [
    | inl e ↦ rw (stored, e) tt
    | inr e ↦
        rw (stored, e)
          (dispatched-Sends tool i _ from w _ (store_job-IsStored b c f _ i.files from w k) refl)
  ]

  pub queue_job-Sends :
      (tool : String) (i : Inputs) (w : W) → Sends tool i w (queue_job b c f tool i w)
  unfolding queue_job
  queue_job-Sends tool i w = stored-Sends tool i w _ refl

  found-by_id :
      (redis : Option (Redis W)) (ids : List String) (w : W) (job : NewJob)
      → find_existing_job redis b.find_job ids w ≡ some job
      → (id : String) × (b.find_job w id ≡ some job)
  unfolding find_existing_job
  found-by_id none ids w job e = cc
  found-by_id (some r) ids w job e =
      let (id, named, found) = find_existing_job_lem r b.find_job ids w job e in (id, found)

  pub existing-Told :
      (s : Objects W) (tool : String) (body : Body) (ids : List String) (w : W) (job : NewJob)
      → find_existing_job b.redis b.find_job ids w ≡ some job
      → Told s tool body (existing_job b c f job w)
  existing-Told s tool body ids w job e =
      let (id, found) = found-by_id b.redis ids w job e in
      existing_job-Told s tool body job w id found
