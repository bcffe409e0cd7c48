-- ===== src/Jobs/Create/Restores/Claimed.antt =====
-- The JSON branch: the claims are given back.
use fyredocs_backend.Prelude.{
  ◌∷◌, ◌≡◌, refl, sym, subst, String, Bool, true, false, ltb, length, is_empty, Option, none, some,
  List, [], ◌++◌, inl, inr, Bool-cases, Option-cases,
}
use fyredocs_backend.Store.{Result, ok, err, Fault}
use fyredocs_backend.Store.Redis.{Redis}
use fyredocs_backend.Http.{success, failure, Flow, go, reply}
use fyredocs_backend.Uploads.Caller.{Caller, plan_max_files_per_job}
use fyredocs_backend.Jobs.Claims.{
  Claim, claimed, conflict, failed, claim_uploads, claim_from, claim_round, release_upload_claims,
  upload_claim_key, upload_claim_ttl,
}
use fyredocs_backend.Jobs.Claims.Atomic.{
  claim_uploads-all_or_nothing, release_restores, keep-Holds, Outcome as ClaimOutcome, Holds,
}
use fyredocs_backend.Jobs.Consume.{ConsumeError, find_existing_job}
use fyredocs_backend.Jobs.Create.{
  JobBackend, Fresh, InputFile, Outcome, not_committed, committed, queued,
}
use fyredocs_backend.Jobs.Create.Uploaded.{
  release_after, queue_consumed, with_claims, claim_new, create_from_uploads, requested_ids,
  UploadJobRequest,
}
use fyredocs_backend.Jobs.Create.Restores.{
  Answers, RedisLaws, Kept, existing_job-Kept, queue_job-Kept,
}

module _ {W : Type 0} (present : W → String → Bool) where
  -- What is known of a claim and of the release that follows it: the keys are as before.
  abbrev Undone : Option (Redis W) → W → Claim × W → Type 0
  Undone redis w (claimed taken, v) =
      (v' : W)
      → ((j : String) → present v' j ≡ present v j)
      → (j : String) → present (release_upload_claims redis taken v') j ≡ present w j
  Undone redis w (conflict, v) = (j : String) → present v j ≡ present w j
  Undone redis w (failed e, v) = ⊥

  module _ (redis : Redis W) (a : Answers redis present) where
    round-answers :
        (taken : List String) (next : W → Claim × W) (r : Result Bool × W) (e : Fault)
        → ((x : Fault) → r.0 ≡ err x → ⊥)
        → ((w : W) → (next w).0 ≡ failed e → ⊥)
        → (claim_round redis taken next r).0 ≡ failed e
        → ⊥
    unfolding claim_round
    round-answers taken next (err x, w) e never rest h = never x refl
    round-answers taken next (ok false, w) e never rest h = absurd (apart h)
      where
        apart : conflict ≡ failed e → ⊥
        apart k = cc
    round-answers taken next (ok true, w) e never rest h = rest w h

    claim_from-answers :
        (ids taken : List String) (w : W) (e : Fault)
        → (claim_from redis ids taken w).0 ≡ failed e
        → ⊥
    unfolding claim_from
    claim_from-answers [] taken w e h = let k : claimed taken ≡ failed e = h in cc
    claim_from-answers (id ∷ ids) taken w e h =
        round-answers taken (claim_from redis ids (taken ++ id ∷ [])) _ e
          (a.set_nx_works (upload_claim_key id) "1" upload_claim_ttl w)
          (λ v. claim_from-answers ids (taken ++ id ∷ []) v e) h

    claimed-Undone :
        (ids : List String) (w : W) → Undone (some redis) w (claim_uploads (some redis) ids w)
    unfolding claim_uploads
    claimed-Undone ids w =
        undone _
          (claim_uploads-all_or_nothing redis present a.laws a.del_works
            (λ k v t w x e. absurd (a.set_nx_works k v t w x e)) ids w)
          (claim_from-answers ids [] w)
      where
        undone :
            (r : Claim × W)
            → ClaimOutcome redis present a.laws a.del_works w [] ids r
            → ((e : Fault) → r.0 ≡ failed e → ⊥)
            → Undone (some redis) w r
        undone (claimed all, v) (same, distinct, holds) never = λ v' e j.
            release_restores redis present a.laws a.del_works w v' all
              (keep-Holds redis present a.laws a.del_works w v v' all
                (subst (λ l. Holds redis present a.laws a.del_works w l v) (sym same) holds) e)
              j
        undone (conflict, v) same never = same
        undone (failed e, v) o never = never e refl

  uploads-Undone :
      (redis : Option (Redis W))
      → RedisLaws present redis
      → (ids : List String) (w : W) → Undone redis w (claim_uploads redis ids w)
  unfolding claim_uploads release_upload_claims
  uploads-Undone none laws ids w = λ v' e j. e j
  uploads-Undone (some redis) laws ids w = claimed-Undone redis laws ids w

  module _ (b : JobBackend W) (c : Caller) (f : Fresh) (laws : RedisLaws present b.redis)
      (quiet : (kind tool : String) (w : W) (j : String)
        → present (b.publish_limit_hit kind tool w) j ≡ present w j) where
    queue_consumed-Kept :
        (tool options : String) (ids : List String) (r : Flow ConsumeError (List InputFile)) (w : W)
        → Kept b c f present w (queue_consumed b c f tool options ids r w)
    unfolding queue_consumed
    queue_consumed-Kept tool options ids (reply e) w = λ j. refl
    queue_consumed-Kept tool options ids (go files) w = queue_job-Kept b c f present tool _ w

    release_after-Kept :
        (tool : String) (taken : List String) (w v : W) (o : Outcome W)
        → Undone b.redis w (claimed taken, v)
        → Kept b c f present v o
        → Kept b c f present w (release_after b c f tool taken o)
    unfolding release_after
    release_after-Kept tool taken w v (success n x, p, v') undone k = tt
    release_after-Kept tool taken w v (failure n x, not_committed, v') undone k = undone v' k
    release_after-Kept tool taken w v (failure n x, committed, v') undone k = tt
    release_after-Kept tool taken w v (failure n x, queued, v') undone k = tt

    with_claims-Kept :
        (tool options : String) (ids : List String) (w : W) (r : Claim × W)
        → Undone b.redis w r
        → Kept b c f present w (with_claims b c f tool options ids r)
    unfolding with_claims
    with_claims-Kept tool options ids w (failed e, v) undone = absurd undone
    with_claims-Kept tool options ids w (conflict, v) undone =
        elim (Option-cases (find_existing_job b.redis b.find_job ids v)) [
          | inl e ↦ rw (with_claims, e) undone
          | inr (job, e) ↦ rw (with_claims, e) (existing_job-Kept b c f present job w v)
        ]
    with_claims-Kept tool options ids w (claimed taken, v) undone =
        release_after-Kept tool taken w v _ undone (queue_consumed-Kept tool options ids _ v)

    claim_new-Kept :
        (tool options : String) (ids : List String) (w : W)
        → Kept b c f present w (claim_new b c f tool options ids w)
    unfolding claim_new
    claim_new-Kept tool options ids w =
        elim (Option-cases (find_existing_job b.redis b.find_job ids w)) [
          | inr (job, e) ↦ rw (claim_new, e) (existing_job-Kept b c f present job w w)
          | inl e ↦ elim (Bool-cases (b.check_options tool options)) [
            | inl o ↦
                rw (claim_new, e, o)
                  (with_claims-Kept tool options ids w _ (uploads-Undone b.redis laws ids w))
            | inr o ↦ rw (claim_new, e, o) (λ j. refl)
          ]
        ]

    pub create_from_uploads-Kept :
        (tool : String) (req : Option UploadJobRequest) (w : W)
        → Kept b c f present w (create_from_uploads b c f tool req w)
    unfolding create_from_uploads
    create_from_uploads-Kept tool none w = λ j. refl
    create_from_uploads-Kept tool (some req) w = elim (Bool-cases (is_empty (requested_ids req))) [
      | inl e ↦ rw (create_from_uploads, e) (λ j. refl)
      | inr e ↦
          elim (Bool-cases (ltb (plan_max_files_per_job b.env c) (length (requested_ids req)))) [
            | inl m ↦ rw (create_from_uploads, e, m) (quiet "max_files" tool w)
            | inr m ↦ rw (create_from_uploads, e, m) (claim_new-Kept tool req.options _ w)
          ]
    ]
