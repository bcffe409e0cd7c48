-- ===== src/Tests/ClaimTests.antt =====
-- Claims at concrete inputs.
use fyredocs_backend.Prelude.{ℕ, refl, ◌≡◌, List, [], ◌∷◌, some, String, inl, inr, Bool-cases}
use fyredocs_backend.Store.{Fault, err}
use fyredocs_backend.Jobs.Claims.{claim_uploads, conflict, claim_from}
use fyredocs_backend.Jobs.Claims.Atomic.{Outcome, claim_uploads-all_or_nothing}
use fyredocs_backend.Jobs.Claims.Interleaving.{
  Claims, Reach, round, here, next, IsExclusive, Reach-IsExclusive, update,
}
use fyredocs_backend.Tests.FakeRedis.{Keys, has, fake_redis, fake-KeyLaws}

abbrev two : List String
two = "a" ∷ "b" ∷ []

duplicate_conflicts : claim_uploads (some fake_redis) ("a" ∷ "a" ∷ []) [] ≡ (conflict, [])
unfolding claim_uploads
duplicate_conflicts = refl

set_nx_refused :
    (k v : String) (t : ℕ) (w : Keys) (e : Fault)
    → (fake_redis.set_nx k v t w).0 ≡ err e
    → (j : String) → has (fake_redis.set_nx k v t w).1 j ≡ has w j
set_nx_refused k v t w e h j = elim (Bool-cases (has w k)) [
  | inl x ↦ let h' = rw x at h in cc
  | inr x ↦ let h' = rw x at h in cc
]

claim_uploads-all_or_nothing_example :
    Outcome fake_redis has fake-KeyLaws
      (λ ks w. refl)
      []
      []
      two
      (claim_uploads (some fake_redis) two [])
claim_uploads-all_or_nothing_example =
    claim_uploads-all_or_nothing fake_redis has fake-KeyLaws (λ ks w. refl) set_nx_refused two []

abbrev idle : Claims Keys
idle = record { world = []; taken = λ i. [] }

-- Request 1 claims "a", request 2 claims "b", and then meets the claim of the first.
abbrev meeting : Reach fake_redis has idle (record {
  world = ("claim:upload:a", "1") ∷ [];
  taken = update (update (update (λ i. []) 1 ("a" ∷ [])) 2 ("b" ∷ [])) 2 [];
})
unfolding claim_from
meeting = next (next (next here (round 1 "a")) (round 2 "b")) (round 2 "a")

Reach-IsExclusive_example : IsExclusive has (record {
  world = ("claim:upload:a", "1") ∷ [];
  taken = update (update (update (λ i. []) 1 ("a" ∷ [])) 2 ("b" ∷ [])) 2 [];
})
Reach-IsExclusive_example =
    Reach-IsExclusive fake_redis has fake-KeyLaws (λ ks w. refl) set_nx_refused {s = idle}
      (λ i. refl) meeting
