-- ===== src/Jobs/Cleanup/Completes.antt =====
-- The loop over the batches ends, and leaves no expired job.
use fyredocs_backend.Prelude.{
  ℕ, zero, suc, ◌<◌, ◌≤◌, String, Bool, true, not, ltb, length, length-append, any, filter, List,
  [], ◌∷◌, ◌++◌, ◌≡◌, refl, sym, ap, subst, ◌∙◌, ◌⊎◌, inl, inr, Bool-cases, arith, ◌=ₛ◌, eq_refl,
}
use text.Mathlib.Text.{starts_with}
use fyredocs_backend.Store.{ok}
use fyredocs_backend.Jobs.Access.{FileMetadata}
use fyredocs_backend.Jobs.Cleanup.{
  SweepBackend, batch_size, remove_job_objects, files_found, clean_batch, batch_round,
  cleanup_expired_jobs,
}

abbrev pub listed : List String → String → Bool
listed ids id = any (λ x. x =ₛ id) ids

length-filter : (p : String → Bool) (xs : List String) → length (filter p xs) ≤ length xs
length-filter p [] = omega arith
length-filter p (x ∷ xs) = elim (Bool-cases (p x)) [
  | inl e ↦ rw e (omega (arith, length-filter p xs))
  | inr e ↦ rw e (omega (arith, length-filter p xs))
]

listed-append :
    (seen : List String) (x : String) (ids : List String) → listed (seen ++ x ∷ ids) x ≡ true
listed-append [] x ids = ground (arith, eq_refl x)
listed-append (y ∷ seen) x ids = ground (arith, listed-append seen x ids)

-- Removing what a list's beginning names removes at least that much.
filter-prefix :
    (all ids rest : List String)
    → ((x : String) → listed ids x ≡ true → listed all x ≡ true)
    → length (filter (λ x. not (listed all x)) (ids ++ rest)) ≤ length rest
filter-prefix all [] rest within = length-filter _ rest
filter-prefix all (x ∷ ids) rest within =
    let gone : listed all x ≡ true = within x (listed-append [] x ids) in
    rw gone (filter-prefix all ids rest (λ y h. within y (ground (arith, h))))

-- What the statements on expired jobs are documented to do: a query answers with a beginning of the
-- expired rows, of 100 of them or all, a deletion removes the rows named, and the files and objects
-- are not rows of jobs.
pub record BatchLaws {W : Type 0} (b : SweepBackend W) (now : ℕ) (expired : W → List String)
    : Type 0 where
  pub find_ok :
      (w : W)
      → (ids : List String) × (rest : List String) × (b.find_expired w now batch_size ≡ ok ids)
        × (expired w ≡ ids ++ rest)
        × ((length ids ≡ batch_size) ⊎ (rest ≡ []))
  pub delete_ok :
      (ids : List String) (w : W)
      → expired (b.delete_jobs ids w) ≡ filter (λ x. not (listed ids x)) (expired w)
  pub files_quiet : (ids : List String) (w : W) → expired (b.delete_files ids w) ≡ expired w
  pub objects_quiet :
      (bucket key : String) (w : W) → expired (b.store.remove_object bucket key w).1 ≡ expired w

module _ {W : Type 0} (b : SweepBackend W) (now : ℕ) (expired : W → List String)
    (laws : BatchLaws b now expired) where
  objects-quiet : (fs : List FileMetadata) (w : W) → expired (remove_job_objects b fs w) ≡ expired w
  unfolding remove_job_objects
  objects-quiet [] w = refl
  objects-quiet (f ∷ fs) w = elim (Bool-cases (starts_with f.path "/")) [
    | inl e ↦ rw (remove_job_objects, e) (objects-quiet fs w)
    | inr e ↦ rw (remove_job_objects, e) (objects-quiet fs _ ∙ laws.objects_quiet _ f.path w)
  ]

  batch-shrinks :
      (ids rest : List String) (w : W)
      → expired w ≡ ids ++ rest
      → length (expired (clean_batch b ids w)) ≤ length rest
  unfolding clean_batch
  batch-shrinks ids rest w e =
      let cleared = remove_job_objects b (files_found b (b.files_of w ids)) w in
      let same =
        laws.files_quiet ids cleared ∙ (objects-quiet (files_found b (b.files_of w ids)) w ∙ e) in
      let left =
        laws.delete_ok ids (b.delete_files ids cleared)
        ∙ ap (filter (λ x. not (listed ids x))) same in
      subst (λ l. length l ≤ length rest) (sym left) (filter-prefix ids ids rest (λ x h. h))

  none_left : (xs : List String) → length xs ≤ 0 → xs ≡ []
  none_left [] h = refl
  none_left (x ∷ xs) h = absurd (omega arith)

  -- A round on a batch, if the loop does what is wanted from every world with fewer than `n` jobs.
  round-completes :
      (n : ℕ) (w : W) (next next' : W → W) (ids rest : List String)
      → expired w ≡ ids ++ rest
      → (length ids ≡ batch_size) ⊎ (rest ≡ [])
      → length (ids ++ rest) < suc n
      → ((v : W) → length (expired v) < n → (expired (next v) ≡ []) × (next' v ≡ next v))
      → (expired (batch_round b w next (ok ids)) ≡ [])
        × (batch_round b w next' (ok ids) ≡ batch_round b w next (ok ids))
  unfolding batch_round
  round-completes n w next next' [] rest split (inl full) few ih = absurd (omega (arith, full))
  round-completes n w next next' [] rest split (inr over) few ih = (split ∙ over, refl)
  round-completes n w next next' (x ∷ ids) rest split full few ih =
      elim (Bool-cases (ltb (length (x ∷ ids)) batch_size)) [
        | inl e ↦ rw (batch_round, e) (none_left _ (last full e), refl)
        | inr e ↦ rw (batch_round, e) (ih (clean_batch b (x ∷ ids) w) fewer)
      ]
    where
      shrinks : length (expired (clean_batch b (x ∷ ids) w)) ≤ length rest
      shrinks = batch-shrinks (x ∷ ids) rest w split

      fewer : length (expired (clean_batch b (x ∷ ids) w)) < n
      fewer = omega (arith, shrinks, few, length-append (x ∷ ids) rest)

      last :
          (length (x ∷ ids) ≡ batch_size) ⊎ (rest ≡ [])
          → ltb (length (x ∷ ids)) batch_size ≡ true
          → length (expired (clean_batch b (x ∷ ids) w)) ≤ 0
      last (inl all) e = absurd (ground arith)
      last (inr over) e =
          subst (λ l. length (expired (clean_batch b (x ∷ ids) w)) ≤ length l) over shrinks

  completes :
      (n m : ℕ) (w : W)
      → length (expired w) < n
      → n ≤ m
      → (expired (cleanup_expired_jobs b n now w) ≡ [])
        × (cleanup_expired_jobs b m now w ≡ cleanup_expired_jobs b n now w)
  unfolding cleanup_expired_jobs
  completes zero m w few le = absurd (omega (arith, few))
  completes (suc n) zero w few le = absurd (omega (arith, le))
  completes (suc n) (suc m) w few le =
      let (ids, rest, answer, split, full) = laws.find_ok w in
      let (none_expired, same) =
        round-completes n w (cleanup_expired_jobs b n now) (cleanup_expired_jobs b m now) ids rest
          split full (subst (λ l. length l < suc n) split few)
          (λ v h. completes n m v h (omega (arith, le))) in
      let at : (next : W → W)
          → batch_round b w next (b.find_expired w now batch_size) ≡ batch_round b w next (ok ids) =
        λ next. ap (batch_round b w next) answer in
      (
        ap expired (at (cleanup_expired_jobs b n now)) ∙ none_expired,
        at (cleanup_expired_jobs b m now) ∙ (same ∙ sym (at (cleanup_expired_jobs b n now))),
      )

  -- Given more fuel than there are expired jobs, the loop over the batches leaves none of them, and
  -- any more fuel gives the same result: the loop ends. Queries and deletions do not fail.
  pub cleanup_expired_jobs-completes :
      (n : ℕ) (w : W)
      → length (expired w) < n
      → (expired (cleanup_expired_jobs b n now w) ≡ [])
        × ((m : ℕ) → n ≤ m → cleanup_expired_jobs b m now w ≡ cleanup_expired_jobs b n now w)
  cleanup_expired_jobs-completes n w few =
      ((completes n n w few (omega arith)).0, λ m le. (completes n m w few le).1)
