-- ===== src/Jobs/Claims.antt =====
-- Claims on uploads, so that two concurrent submissions cannot consume the same upload
-- (`claimUploads` and `releaseUploadClaims` of job-service/handlers/jobs.go).
pub mod Atomic
pub mod Interleaving
use Prim.Native.String.{◌++◌ as concat}
use fyredocs_backend.Prelude.{
  ℕ, String, Bool, true, false, Option, none, some, List, [], ◌∷◌, ◌++◌, map, is_empty,
  if◌then◌else◌,
}
use fyredocs_backend.Store.{Fault, Result, ok, err}
use fyredocs_backend.Store.Redis.{Redis}

-- Seconds.
abbrev pub upload_claim_ttl : ℕ
upload_claim_ttl = 600

unfoldable pub upload_claim_key : String → String
upload_claim_key id = concat "claim:upload:" id

-- The three ways `claimUploads` returns: the claimed ids, `conflict`, or an error.
pub data Claim : Type 0 where
  claimed : List String → Claim
  conflict : Claim
  failed : Fault → Claim

module _ {W : Type 0} where
  -- The deletion's own result is dropped.
  unfoldable pub release_upload_claims : Option (Redis W) → List String → W → W
  unfolding upload_claim_key
  release_upload_claims none ids w = w
  release_upload_claims (some redis) ids w =
      if is_empty ids then w else (redis.del (map upload_claim_key ids) w).1

  -- One round of the loop: `next` is the rest of it, run if the claim was taken.
  unfoldable pub claim_round : Redis W → List String → (W → Claim × W) → Result Bool × W → Claim × W
  unfolding release_upload_claims
  claim_round redis taken next (err e, w) = (failed e, release_upload_claims (some redis) taken w)
  claim_round redis taken next (ok false, w) =
      (conflict, release_upload_claims (some redis) taken w)
  claim_round redis taken next (ok true, w) = next w

  unfoldable pub claim_from : Redis W → List String → List String → W → Claim × W
  unfolding claim_round upload_claim_key
  claim_from redis [] taken w = (claimed taken, w)
  claim_from redis (id ∷ ids) taken w =
      claim_round redis taken (claim_from redis ids (taken ++ id ∷ []))
        (redis.set_nx (upload_claim_key id) "1" upload_claim_ttl w)

  unfoldable pub claim_uploads : Option (Redis W) → List String → W → Claim × W
  unfolding claim_from
  claim_uploads none ids w = (claimed [], w)
  claim_uploads (some redis) ids w = claim_from redis ids [] w
