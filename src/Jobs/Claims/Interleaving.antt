-- ===== src/Jobs/Claims/Interleaving.antt =====
-- Requests that claim at the same time (`claimUploads` of job-service/handlers/jobs.go): any
-- interleaving of the rounds of their loops, each an atomic SETNX, with the releases of the claims
-- they hold, crashes and expiry.
use fyredocs_backend.Prelude.{
  ℕ, String, Bool, true, false, ◌≡◌, ◌∙◌, List, [], ◌∷◌, some, ◌=ₛ◌, ◌==◌, if◌then◌else◌, any,
  arith, eq_iff, not, ◌&&◌, ◌||◌, ◌++◌, refl,
}
use fyredocs_backend.Store.{Fault, Result, ok, err}
use fyredocs_backend.Store.Redis.{Redis, KeyLaws}
use fyredocs_backend.Jobs.Claims.{
  Claim, claimed, conflict, failed, upload_claim_key, upload_claim_ttl, release_upload_claims,
  claim_round, claim_from,
}
use fyredocs_backend.Jobs.Claims.Atomic.{key_eq, any-key}

abbrev pub holds : List String → String → Bool
holds taken id = any (λ a. a =ₛ id) taken

-- The world and what each request has claimed so far.
pub record Claims (W : Type 0) : Type 0 where
  pub world : W
  pub taken : ℕ → List String

abbrev pub update : (ℕ → List String) → ℕ → List String → ℕ → List String
update f i l j = if i == j then l else f j

-- What a request holds after a part of its loop: it has given back all of it unless it goes on.
abbrev pub held : Claim → List String
held (claimed taken) = taken
held conflict = []
held (failed e) = []

-- The state after request `i` has done a part of its loop.
abbrev pub advance : {W : Type 0} → Claims W → ℕ → Claim × W → Claims W
advance s i r = record { world = r.1; taken = update s.taken i (held r.0) }

-- One step of one of the requests, or of Redis.
pub data Step {W : Type 0} (redis : Redis W) (present : W → String → Bool) (s : Claims W)
    : Claims W → Type 0 where
  -- Request `i` runs its loop for one more id, with its release if that ends it.
  round :
      (i : ℕ) (id : String)
      → Step redis present s (advance s i (claim_from redis (id ∷ []) (s.taken i) s.world))
  -- Request `i` releases what it holds, on its return.
  release :
      (i : ℕ)
      → Step redis present s (record {
        world = release_upload_claims (some redis) (s.taken i) s.world;
        taken = update s.taken i [];
      })
  -- Request `i` is cut off: it releases nothing.
  crash : (i : ℕ) → Step redis present s (record { world = s.world; taken = update s.taken i [] })
  -- The claim on an upload that no request holds expires.
  expire :
      (id : String) (w : W)
      → ((i : ℕ) → holds (s.taken i) id ≡ false)
      → ((j : String) → present w j ≡ (present s.world j && not (upload_claim_key id =ₛ j)))
      → Step redis present s (record { world = w; taken = s.taken })

pub data Reach {W : Type 0} (redis : Redis W) (present : W → String → Bool) (s : Claims W)
    : Claims W → Type 0 where
  here : Reach redis present s s
  next :
      {t u : Claims W} → Reach redis present s t → Step redis present t u → Reach redis present s u

-- Every claim held is present in Redis, and no upload is claimed by two requests.
pub record IsExclusive {W : Type 0} (present : W → String → Bool) (s : Claims W) : Type 0 where
  pub backed :
      (i : ℕ) (id : String)
      → holds (s.taken i) id ≡ true
      → present s.world (upload_claim_key id) ≡ true
  pub alone :
      (i j : ℕ) (id : String) → holds (s.taken i) id ≡ true → holds (s.taken j) id ≡ true → i ≡ j

holds-concat :
    (taken : List String) (id a : String)
    → holds (taken ++ id ∷ []) a ≡ (holds taken a || (id =ₛ a))
holds-concat [] id a = ground arith
holds-concat (b ∷ taken) id a = ground (arith, holds-concat taken id a)

module _ {W : Type 0} (redis : Redis W) (present : W → String → Bool) (laws : KeyLaws redis present)
    (del_works : (ks : List String) (w : W) → (redis.del ks w).0 ≡ ok tt)
    (refused : (k v : String) (t : ℕ) (w : W) (e : Fault)
      → (redis.set_nx k v t w).0 ≡ err e
      → (j : String) → present (redis.set_nx k v t w).1 j ≡ present w j) where
  release_present :
      (taken : List String) (w : W) (id : String)
      → present (release_upload_claims (some redis) taken w) (upload_claim_key id)
        ≡ (present w (upload_claim_key id) && not (holds taken id))
  unfolding release_upload_claims
  release_present [] w id = ground arith
  release_present (a ∷ taken) w id =
      rw (← any-key (a ∷ taken) id) (laws.del_ok _ w (del_works _ w) (upload_claim_key id))

  keep-IsExclusive :
      (s : Claims W) (w : W)
      → ((j : String) → present w j ≡ present s.world j)
      → IsExclusive present s
      → IsExclusive present (record { world = w; taken = s.taken })
  keep-IsExclusive s w e v = record {
    backed = λ j a h. e (upload_claim_key a) ∙ v.backed j a h;
    alone = v.alone;
  }

  win-IsExclusive :
      (s : Claims W) (i : ℕ) (id : String) (w : W)
      → present s.world (upload_claim_key id) ≡ false
      → ((j : String)
          → present w j ≡ (if upload_claim_key id =ₛ j then true else present s.world j))
      → IsExclusive present s
      → IsExclusive present (advance s i (claimed (s.taken i ++ id ∷ []), w))
  win-IsExclusive s i id w free new v = record {
    backed = λ j a h. ground (
      arith,
      new (upload_claim_key a),
      v.backed j a,
      v.backed i a,
      key_eq id a,
      holds-concat (s.taken i) id a,
    );
    alone = λ j k a h h'. ground (
      arith,
      free,
      eq_iff id a,
      v.backed j a,
      v.backed k a,
      v.alone j k a,
      v.backed i a,
      v.alone i k a,
      v.alone j i a,
      holds-concat (s.taken i) id a,
    );
  }

  release-IsExclusive :
      (s : Claims W) (i : ℕ)
      → IsExclusive present s
      → IsExclusive present (record {
        world = release_upload_claims (some redis) (s.taken i) s.world;
        taken = update s.taken i [];
      })
  release-IsExclusive s i v = record {
    backed =
        λ j a h. ground (arith, release_present (s.taken i) s.world a, v.backed j a, v.alone i j a);
    alone = λ j k a h h'. ground (arith, v.alone j k a);
  }

  round-IsExclusive :
      (s : Claims W) (i : ℕ) (id : String) (r : Result Bool × W)
      → (r.0 ≡ ok true
          → (present s.world (upload_claim_key id) ≡ false)
            × ((j : String)
                → present r.1 j ≡ (if upload_claim_key id =ₛ j then true else present s.world j)))
      → (r.0 ≡ ok false → (j : String) → present r.1 j ≡ present s.world j)
      → ((e : Fault) → r.0 ≡ err e → (j : String) → present r.1 j ≡ present s.world j)
      → IsExclusive present s
      → IsExclusive present (
          advance s i
            (claim_round redis (s.taken i) (claim_from redis [] (s.taken i ++ id ∷ [])) r))
  unfolding claim_round claim_from
  round-IsExclusive s i id (ok true, w) new old lost v =
      win-IsExclusive s i id w (new refl).0 (new refl).1 v
  round-IsExclusive s i id (ok false, w) new old lost v =
      release-IsExclusive (record { world = w; taken = s.taken }) i
        (keep-IsExclusive s w (old refl) v)
  round-IsExclusive s i id (err e, w) new old lost v =
      release-IsExclusive (record { world = w; taken = s.taken }) i
        (keep-IsExclusive s w (lost e refl) v)

  Step-IsExclusive :
      {s t : Claims W} → Step redis present s t → IsExclusive present s → IsExclusive present t
  unfolding claim_from
  Step-IsExclusive {s} (round i id) v =
      let key = upload_claim_key id in
      round-IsExclusive s i id (redis.set_nx key "1" upload_claim_ttl s.world)
        (laws.set_nx_new key "1" upload_claim_ttl s.world)
        (λ e. (laws.set_nx_old key "1" upload_claim_ttl s.world e).1)
        (refused key "1" upload_claim_ttl s.world) v
  Step-IsExclusive {s} (release i) v = release-IsExclusive s i v
  Step-IsExclusive {s} (crash i) v = record {
    backed = λ j a h. ground (arith, v.backed j a);
    alone = λ j k a h h'. ground (arith, v.alone j k a);
  }
  Step-IsExclusive {s} (expire id w none_holds gone) v = record {
    backed = λ j a h.
        ground
          (arith, none_holds j, gone (upload_claim_key a), v.backed j a, key_eq id a, eq_iff id a);
    alone = v.alone;
  }

  -- From a state where no request holds a claim, no interleaving of the rounds of the requests'
  -- loops, of their releases, of crashes and of the expiry of claims that no request holds reaches
  -- a state in which two requests hold a claim on the same upload; and every claim that a request
  -- holds is present in Redis. A SETNX that fails is taken to have set nothing, deletions to
  -- succeed, and no claim to expire while a request holds it, which the claim's 600 seconds are for.
  pub Reach-IsExclusive :
      {s t : Claims W}
      → ((i : ℕ) → s.taken i ≡ [])
      → Reach redis present s t
      → IsExclusive present t
  Reach-IsExclusive {s} none_held here = record {
    backed = λ i id h. ground (arith, none_held i);
    alone = λ i j id h h'. ground (arith, none_held i);
  }
  Reach-IsExclusive none_held (next r st) = Step-IsExclusive st (Reach-IsExclusive none_held r)
