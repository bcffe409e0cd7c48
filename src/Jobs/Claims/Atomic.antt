-- ===== src/Jobs/Claims/Atomic.antt =====
-- Claiming is all or nothing.
use text.Mathlib.TextLemmas.{append_cancel_left}
use mathlib.Core.List.{append_assoc, append-nil}
use fyredocs_backend.Prelude.{
  ℕ, String, Bool, true, false, not, ◌&&◌, ◌||◌, ◌≡◌, refl, sym, subst, ◌∙◌, inl, inr, some, List,
  [], ◌∷◌, ◌++◌, map, ◌=ₛ◌, any, arith, eq_iff, eq_refl, Bool-cases,
}
use fyredocs_backend.Store.{Fault, Result, ok, err}
use fyredocs_backend.Store.Redis.{Redis, KeyLaws}
use fyredocs_backend.Jobs.Claims.{
  Claim, claimed, conflict, failed, upload_claim_key, upload_claim_ttl, release_upload_claims,
  claim_round, claim_from, claim_uploads,
}

-- Different uploads have different claim keys.
pub key_eq : (a b : String) → (upload_claim_key a =ₛ upload_claim_key b) ≡ (a =ₛ b)
unfolding upload_claim_key
key_eq a b = elim (Bool-cases (a =ₛ b)) [
  | inl e ↦ rw (e, (eq_iff a b).0 e) (eq_refl (upload_claim_key b))
  | inr e ↦ elim (Bool-cases (upload_claim_key a =ₛ upload_claim_key b)) [
    | inl k ↦
        let same : a ≡ b = append_cancel_left "claim:upload:" a b ((eq_iff _ _).0 k) in
        k ∙ sym ((eq_iff a b).1 same)
    | inr k ↦ k ∙ sym e
  ]
]

pub any-key :
    (taken : List String) (id : String)
    → any (λ k. k =ₛ upload_claim_key id) (map upload_claim_key taken) ≡ any (λ a. a =ₛ id) taken
any-key [] id = refl
any-key (a ∷ taken) id = rw (key_eq a id, any-key taken id)

-- No id occurs in `seen` or earlier in the list.
abbrev pub Distinct : List String → List String → Type 0
Distinct seen [] = Unit
Distinct seen (id ∷ ids) = (any (λ a. a =ₛ id) seen ≡ false) × Distinct (seen ++ id ∷ []) ids

any-concat :
    (p : String → Bool) (taken : List String) (id : String)
    → any p (map upload_claim_key (taken ++ id ∷ []))
      ≡ (any p (map upload_claim_key taken) || p (upload_claim_key id))
any-concat p [] id = ground arith
any-concat p (a ∷ taken) id = ground (arith, any-concat p taken id)

restored :
    (after before start hit : Bool)
    → after ≡ (before && not hit)
    → before ≡ (start || hit)
    → (hit ≡ true → start ≡ false)
    → after ≡ start
restored after before start true e f g = ground arith
restored after before start false e f g = ground arith

module _ {W : Type 0} (redis : Redis W) (present : W → String → Bool) (laws : KeyLaws redis present)
    (del_works : (ks : List String) (w : W) → (redis.del ks w).0 ≡ ok tt) where
  abbrev pub hit : List String → String → Bool
  hit taken j = any (λ k. k =ₛ j) (map upload_claim_key taken)

  -- The keys of `taken` have been added since the world `w₀`, where none of them was present.
  pub record Holds (w₀ : W) (taken : List String) (w : W) : Type 0 where
    pub added : (j : String) → present w j ≡ (present w₀ j || hit taken j)
    pub fresh : (j : String) → hit taken j ≡ true → present w₀ j ≡ false

  pub release_restores :
      (w₀ w : W) (taken : List String)
      → Holds w₀ taken w
      → (j : String) → present (release_upload_claims (some redis) taken w) j ≡ present w₀ j
  unfolding release_upload_claims
  release_restores w₀ w [] h j = ground (arith, h.added j)
  release_restores w₀ w (id ∷ taken) h j =
      restored _ _ _ _ (laws.del_ok (map upload_claim_key (id ∷ taken)) w (del_works _ w) j)
        (h.added j) (h.fresh j)

  take-Holds :
      (w₀ w : W) (taken : List String) (id v : String) (t : ℕ)
      → Holds w₀ taken w
      → (redis.set_nx (upload_claim_key id) v t w).0 ≡ ok true
      → Holds w₀ (taken ++ id ∷ []) (redis.set_nx (upload_claim_key id) v t w).1
  take-Holds w₀ w taken id v t h e = record {
    added = λ j. ground (
      arith,
      (laws.set_nx_new (upload_claim_key id) v t w e).1 j,
      h.added j,
      any-concat (λ k. k =ₛ j) taken id,
    );
    fresh = λ j m. ground (
      arith,
      (laws.set_nx_new (upload_claim_key id) v t w e).0,
      h.added (upload_claim_key id),
      h.fresh j,
      eq_iff (upload_claim_key id) j,
      any-concat (λ k. k =ₛ j) taken id,
    );
  }

  -- What the caller of `claim_from` gets.
  abbrev pub Outcome : W → List String → List String → Claim × W → Type 0
  Outcome w₀ taken ids (claimed all, w) =
      (all ≡ taken ++ ids) × Distinct taken ids × Holds w₀ (taken ++ ids) w
  Outcome w₀ taken ids (conflict, w) = (j : String) → present w j ≡ present w₀ j
  Outcome w₀ taken ids (failed e, w) = (j : String) → present w j ≡ present w₀ j

  pub keep-Holds :
      (w₀ w w' : W) (taken : List String)
      → Holds w₀ taken w
      → ((j : String) → present w' j ≡ present w j)
      → Holds w₀ taken w'
  keep-Holds w₀ w w' taken h e = record { added = λ j. e j ∙ h.added j; fresh = h.fresh }

  widen-Outcome :
      (w₀ : W) (id : String) (ids taken : List String) (c : Claim × W)
      → any (λ a. a =ₛ id) taken ≡ false
      → Outcome w₀ (taken ++ id ∷ []) ids c
      → Outcome w₀ taken (id ∷ ids) c
  widen-Outcome w₀ id ids taken (claimed all, w) new (e, d, h) =
      let assoc = append_assoc taken (id ∷ []) ids in
      (e ∙ assoc, (new, d), subst (λ l. Holds w₀ l w) assoc h)
  widen-Outcome w₀ id ids taken (conflict, w) new o = o
  widen-Outcome w₀ id ids taken (failed e, w) new o = o

  round-Outcome :
      (w₀ : W) (id : String) (ids taken : List String) (r : Result Bool × W)
      → (r.0 ≡ ok true → (any (λ a. a =ₛ id) taken ≡ false) × Holds w₀ (taken ++ id ∷ []) r.1)
      → (r.0 ≡ ok false → Holds w₀ taken r.1)
      → ((e : Fault) → r.0 ≡ err e → Holds w₀ taken r.1)
      → ((w : W)
          → Holds w₀ (taken ++ id ∷ []) w
          → Outcome w₀ (taken ++ id ∷ []) ids (claim_from redis ids (taken ++ id ∷ []) w))
      → Outcome w₀ taken
          (id ∷ ids)
          (claim_round redis taken (claim_from redis ids (taken ++ id ∷ [])) r)
  unfolding claim_round
  round-Outcome w₀ id ids taken (ok true, w) new old lost rest =
      widen-Outcome w₀ id ids taken _ (new refl).0 (rest w (new refl).1)
  round-Outcome w₀ id ids taken (ok false, w) new old lost rest =
      release_restores w₀ w taken (old refl)
  round-Outcome w₀ id ids taken (err e, w) new old lost rest =
      release_restores w₀ w taken (lost e refl)

  module _
      (refused : (k v : String) (t : ℕ) (w : W) (e : Fault)
        → (redis.set_nx k v t w).0 ≡ err e
        → (j : String) → present (redis.set_nx k v t w).1 j ≡ present w j) where
    claim_from-Outcome :
        (w₀ : W) (ids taken : List String) (w : W)
        → Holds w₀ taken w
        → Outcome w₀ taken ids (claim_from redis ids taken w)
    unfolding claim_from
    claim_from-Outcome w₀ [] taken w h =
        (sym (append-nil taken), tt, subst (λ l. Holds w₀ l w) (sym (append-nil taken)) h)
    claim_from-Outcome w₀ (id ∷ ids) taken w h =
        let key = upload_claim_key id in
        round-Outcome w₀ id ids taken (redis.set_nx key "1" upload_claim_ttl w)
          (λ e. (
            ground (
              arith,
              (laws.set_nx_new key "1" upload_claim_ttl w e).0,
              h.added key,
              any-key taken id,
            ),
            take-Holds w₀ w taken id "1" upload_claim_ttl h e,
          ))
          (λ e. keep-Holds w₀ w _ taken h (laws.set_nx_old key "1" upload_claim_ttl w e).1)
          (λ x e. keep-Holds w₀ w _ taken h (refused key "1" upload_claim_ttl w x e))
          (claim_from-Outcome w₀ ids (taken ++ id ∷ []))

    -- A request that claims its uploads names each of them once, had none of their claims present
    -- before, and adds exactly their claims; a request that meets a conflict, or a claim that
    -- Redis fails to set, leaves every key present or absent as it found it. A SETNX that fails
    -- is taken to have set nothing, and deletions to succeed.
    pub claim_uploads-all_or_nothing :
        (ids : List String) (w : W) → Outcome w [] ids (claim_uploads (some redis) ids w)
    unfolding claim_uploads
    claim_uploads-all_or_nothing ids w =
        claim_from-Outcome w ids [] w (record { added = λ j. ground arith; fresh = λ j m. cc })
