-- ===== src/Tests/FakeScores.antt =====
-- Sorted sets as lists of keys, members and scores, whose numbers are exact.
use fyredocs_backend.Prelude.{
  ℕ, suc, ◌≤◌, ◌<◌, String, false, ◌&&◌, ◌≡◌, ◌≢◌, refl, Option, none, some, List, [], ◌∷◌, ◌=ₛ◌,
  leb, if◌then◌else◌, length, All, All-map, Bool-cases, inl, inr, arith, eq_iff, eq_refl,
}
use fyredocs_backend.Gateway.RateLimit.{SortedSets}
use fyredocs_backend.Gateway.RateLimit.Scores.{ScoreLaws, Distinct}

abbrev pub Entries : Type 0
Entries = List ((String × String) × ℕ)

abbrev pub score_in : Entries → String → String → Option ℕ
score_in [] k m = none
score_in (((key, n), s) ∷ w) k m = if key =ₛ k && n =ₛ m then some s else score_in w k m

-- Removes every entry of the member.
abbrev pub without : String → String → Entries → Entries
without k m [] = []
without k m (((key, n), s) ∷ w) =
    if key =ₛ k && n =ₛ m then without k m w else ((key, n), s) ∷ without k m w

abbrev pub trim : String → ℕ → Entries → Entries
trim k hi [] = []
trim k hi (((key, n), s) ∷ w) =
    if key =ₛ k && leb s hi then trim k hi w else ((key, n), s) ∷ trim k hi w

abbrev pub count : Entries → String → ℕ → ℕ
count [] k lo = 0
count (((key, n), s) ∷ w) k lo = if key =ₛ k && leb lo s then suc (count w k lo) else count w k lo

abbrev pub fake_scores : SortedSets Entries
fake_scores = record {
  bound = λ n. n;
  score = λ n. n;
  run_fails = λ w. false;
  after_failure = λ w. w;
  zremrangebyscore = λ k lo hi w. trim k hi w;
  zcount = count;
  zadd = λ k s m w. ((k, m), s) ∷ without k m w;
  expire = λ k t w. w;
}

drop : String → List String → List String
drop n [] = []
drop n (m ∷ ms) = if n =ₛ m then ms else m ∷ drop n ms

length-drop : (n : String) (ms : List String) → length ms ≤ suc (length (drop n ms))
unfolding drop
length-drop n [] = omega arith
length-drop n (m ∷ ms) = elim (Bool-cases (n =ₛ m)) [
  | inl e ↦ rw e (omega arith)
  | inr e ↦ rw e (omega (arith, length-drop n ms))
]

All-drop : (P : String → Type 0) (n : String) (ms : List String) → All P ms → All P (drop n ms)
unfolding drop
All-drop P n [] h = tt
All-drop P n (m ∷ ms) h = elim (Bool-cases (n =ₛ m)) [
  | inl e ↦ rw e h.1
  | inr e ↦ rw e (h.0, All-drop P n ms h.1)
]

Distinct-drop : (n : String) (ms : List String) → Distinct ms → Distinct (drop n ms)
unfolding drop
Distinct-drop n [] h = tt
Distinct-drop n (m ∷ ms) h = elim (Bool-cases (n =ₛ m)) [
  | inl e ↦ rw e h.1
  | inr e ↦ rw e (All-drop (λ y. m ≢ y) n ms h.0, Distinct-drop n ms h.1)
]

drop-others : (n : String) (ms : List String) → Distinct ms → All (λ m. n ≢ m) (drop n ms)
unfolding drop
drop-others n [] h = tt
drop-others n (m ∷ ms) h = elim (Bool-cases (n =ₛ m)) [
  | inl e ↦ rw (e, (eq_iff n m).0 e) h.0
  | inr e ↦ rw e (λ same. ground (arith, eq_iff n m), drop-others n ms h.1)
]

abbrev Found : Entries → String → ℕ → String → Type 0
Found w k lo m = (s : ℕ) × (score_in w k m ≡ some s) × (lo ≤ s)

Found-later :
    (key n k : String) (s lo : ℕ) (w : Entries) (ms : List String)
    → All (λ m. (key =ₛ k && n =ₛ m) ≡ false) ms
    → All (Found (((key, n), s) ∷ w) k lo) ms
    → All (Found w k lo) ms
Found-later key n k s lo w [] h f = tt
Found-later key n k s lo w (m ∷ ms) h f =
    let ((t, e, le), fs) = f in ((t, rw h.0 at e, le), Found-later key n k s lo w ms h.1 fs)

-- A member that the entry is too low for is another one.
too_low :
    (key n k : String) (s lo : ℕ) (w : Entries)
    → (key =ₛ k && leb lo s) ≡ false
    → (m : String) → Found (((key, n), s) ∷ w) k lo m
    → (key =ₛ k && n =ₛ m) ≡ false
too_low key n k s lo w low m (t, e, le) = elim (Bool-cases (key =ₛ k && n =ₛ m)) [
  | inr o ↦ o
  | inl same ↦ let e' = rw same at e in ground (arith, e', le, low, same)
]

count_all_lem :
    (w : Entries) (k : String) (lo : ℕ) (ms : List String)
    → Distinct ms
    → All (Found w k lo) ms
    → length ms ≤ count w k lo
count_all_lem [] k lo [] d f = omega arith
count_all_lem [] k lo (m ∷ ms) d f = let (t, e, le) = f.0 in cc
count_all_lem (((key, n), s) ∷ w) k lo ms d f = elim (Bool-cases (key =ₛ k && leb lo s)) [
  | inl e ↦
      let rest = drop n ms in
      let others =
        All-map (λ m. n ≢ m) (λ m. (key =ₛ k && n =ₛ m) ≡ false) rest
          (λ m h. ground (arith, eq_iff n m, h)) (drop-others n ms d) in
      let found =
        Found-later key n k s lo w rest others (All-drop (Found (((key, n), s) ∷ w) k lo) n ms f) in
      rw e (omega (arith, count_all_lem w k lo rest (Distinct-drop n ms d) found, length-drop n ms))
  | inr e ↦ rw e (
      count_all_lem w k lo ms d (
        Found-later key n k s lo w ms
          (All-map (Found (((key, n), s) ∷ w) k lo) (λ m. (key =ₛ k && n =ₛ m) ≡ false) ms
            (too_low key n k s lo w e) f)
          f))
]

trim_keeps_lem :
    (key k m : String) (hi s : ℕ) (w : Entries)
    → score_in w k m ≡ some s
    → hi < s
    → score_in (trim key hi w) k m ≡ some s
trim_keeps_lem key k m hi s [] e lt = cc
trim_keeps_lem key k m hi s (((j, n), t) ∷ w) e lt = elim (Bool-cases (j =ₛ k && n =ₛ m)) [
  | inl same ↦
      let e' : some t ≡ some s = rw same at e in
      let kept : (j =ₛ key && leb t hi) ≡ false = ground (arith, e', lt) in rw (kept, same) e'
  | inr other ↦
      let ih = trim_keeps_lem key k m hi s w (rw other at e) lt in
      elim (Bool-cases (j =ₛ key && leb t hi)) [
        | inl gone ↦ rw gone ih
        | inr kept ↦ rw (kept, other) ih
      ]
]

without-other :
    (key m k n : String) (w : Entries) → m ≢ n → score_in (without key m w) k n ≡ score_in w k n
without-other key m k n [] h = refl
without-other key m k n (((j, i), t) ∷ w) h =
    let ih = without-other key m k n w h in
    elim (Bool-cases (j =ₛ key && i =ₛ m)) [
      | inl gone ↦
          let other : (j =ₛ k && i =ₛ n) ≡ false =
            ground (arith, gone, h, eq_iff i m, eq_iff i n) in
          rw (gone, other) ih
      | inr kept ↦ rw (kept, ih) refl
    ]

add_keeps_lem :
    (key k m n : String) (s : ℕ) (w : Entries)
    → m ≢ n
    → score_in (((key, m), s) ∷ without key m w) k n ≡ score_in w k n
add_keeps_lem key k m n s w h =
    let other : (key =ₛ k && m =ₛ n) ≡ false = ground (arith, h, eq_iff m n) in
    rw other (without-other key m k n w h)

pub fake-ScoreLaws : ScoreLaws fake_scores score_in
fake-ScoreLaws = record {
  bound_mono = λ a b h. h;
  trim_keeps = λ key k m hi s w e lt. trim_keeps_lem key k m hi s w e lt;
  add_new = λ key m s w. rw (eq_refl key, eq_refl m) refl;
  add_keeps = λ key k m n s w h. add_keeps_lem key k m n s w h;
  expire_keeps = λ key k m t w h. refl;
  count_all = λ w key lo ms d f. count_all_lem w key lo ms d f;
}
