-- ===== src/Store/Redis.antt =====
-- The Redis commands that the job-service sends, and what they are documented to do to the presence
-- of keys. Expiry is not modelled: a key is present until it is deleted.
use fyredocs_backend.Prelude.{
  ℕ, ◌≡◌, Bool, true, false, not, ◌&&◌, String, List, ◌=ₛ◌, if◌then◌else◌, any,
}
use fyredocs_backend.Store.Faults.{Result, ok}

abbrev pub Fields : Type 0
Fields = List (String × String)

-- Time to live, in seconds.
pub record Redis (W : Type 0) : Type 0 where
  pub get : W → String → Result String
  pub hget_all : W → String → Result Fields
  pub smembers : W → String → Result (List String)
  pub set : String → String → ℕ → W → Result (Unit {0}) × W
  pub set_nx : String → String → ℕ → W → Result Bool × W
  pub del : List String → W → Result (Unit {0}) × W
  -- HSET and EXPIRE in one transaction (`TxPipeline`).
  pub hset_expire : String → Fields → ℕ → W → Result (Unit {0}) × W
  pub sadd_expire : String → String → ℕ → W → W
  pub srem : String → String → W → W

-- Presence of keys under SETNX and DEL. Of a call that fails nothing is known.
pub record KeyLaws {W : Type 0} (redis : Redis W) (present : W → String → Bool) : Type 0 where
  pub set_nx_new :
      (k v : String) (t : ℕ) (w : W)
      → (redis.set_nx k v t w).0 ≡ ok true
      → (present w k ≡ false)
        × ((j : String)
            → present (redis.set_nx k v t w).1 j ≡ (if k =ₛ j then true else present w j))
  pub set_nx_old :
      (k v : String) (t : ℕ) (w : W)
      → (redis.set_nx k v t w).0 ≡ ok false
      → (present w k ≡ true) × ((j : String) → present (redis.set_nx k v t w).1 j ≡ present w j)
  pub del_ok :
      (ks : List String) (w : W)
      → (redis.del ks w).0 ≡ ok tt
      → (j : String) → present (redis.del ks w).1 j ≡ (present w j && not (any (λ k. k =ₛ j) ks))
