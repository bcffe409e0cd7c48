-- ===== src/Text/Decimal/RoundTrip.antt =====
-- What `strconv.Itoa` prints is read back by `strconv.Atoi`.
use Prim.Native.Char.{Char, code}
use text.Mathlib.TextLemmas.{cons-ne-nil}
use native.Mathlib.Nat.{pow-suc}
use fyredocs_backend.Prelude.{
  ℕ, zero, suc, ◌+◌, ◌*◌, ◌/◌, ◌%◌, ◌^◌, ◌<◌, ◌≡◌, refl, ◌∙◌, ap, inl, inr, true, false, some,
  String, ◌==◌, ◌=ₛ◌, arith, eq_iff, Bool-cases, lt→ltb,
}
use fyredocs_backend.Prelude.Int.{pos}
use fyredocs_backend.Text.Space.{char_of}
use fyredocs_backend.Text.Decimal.{
  print_digits, itoa, is_digit, scan_digits, unsigned, positive, atoi,
}

digit_code : (d : ℕ) → d < 10 → code (char_of "0123456789" d) ≡ d + 48
unfolding char_of
digit_code zero h = refl
digit_code (suc zero) h = refl
digit_code (suc (suc zero)) h = refl
digit_code (suc (suc (suc zero))) h = refl
digit_code (suc (suc (suc (suc zero)))) h = refl
digit_code (suc (suc (suc (suc (suc zero))))) h = refl
digit_code (suc (suc (suc (suc (suc (suc zero)))))) h = refl
digit_code (suc (suc (suc (suc (suc (suc (suc zero))))))) h = refl
digit_code (suc (suc (suc (suc (suc (suc (suc (suc zero)))))))) h = refl
digit_code (suc (suc (suc (suc (suc (suc (suc (suc (suc zero))))))))) h = refl
digit_code (suc (suc (suc (suc (suc (suc (suc (suc (suc (suc d)))))))))) h = absurd (omega arith)

digit_ok : (d : ℕ) → d < 10 → is_digit (d + 48) ≡ true
unfolding is_digit
digit_ok d h = ground arith

scan_digit :
    (n m : ℕ) (out : String)
    → scan_digits (String.◌∷◌ (char_of "0123456789" (n % 10)) out) m
      ≡ scan_digits out (m * 10 + n % 10)
unfolding scan_digits
scan_digit n m out =
    rw (digit_code (n % 10) (omega arith))
      (unfold is_digit in rw (digit_ok (n % 10) (omega arith)) (ap (scan_digits out) (omega arith)))

small_lem : (n : ℕ) → (n / 10 == 0) ≡ true → 0 * 10 + n % 10 ≡ n
small_lem n e = ground arith

tenth-lt : (f n : ℕ) → n < 10 ^ suc (suc f) → n / 10 < 10 ^ suc f
tenth-lt f n h = let h' = rw (pow-suc 10 (suc f)) at h in omega arith

-- Reading what is printed in front of `out` continues at `out` with the number.
scan-print :
    (f n : ℕ) (out : String)
    → n < 10 ^ suc f
    → scan_digits (print_digits (suc f) n out) 0 ≡ scan_digits out n
unfolding print_digits
scan-print zero n out h =
    let e : (n / 10 == 0) ≡ true = ground arith in
    rw e (scan_digit n 0 out ∙ ap (scan_digits out) (small_lem n e))
scan-print (suc f) n out h = elim (Bool-cases (n / 10 == 0)) [
  | inl e ↦ rw e (scan_digit n 0 out ∙ ap (scan_digits out) (small_lem n e))
  | inr e ↦ rw e (
      scan-print f (n / 10) (String.◌∷◌ (char_of "0123456789" (n % 10)) out) (tenth-lt f n h)
      ∙ scan_digit n (n / 10) out
      ∙ ap (scan_digits out) (omega arith))
]

print-head :
    (f n : ℕ) (out : String)
    → (d : ℕ) × (rest : String) × (d < 10)
      × (print_digits (suc f) n out ≡ String.◌∷◌ (char_of "0123456789" d) rest)
unfolding print_digits
print-head zero n out = (n % 10, out, omega arith, ground arith)
print-head (suc f) n out = elim (Bool-cases (n / 10 == 0)) [
  | inl e ↦ (n % 10, out, omega arith, rw e)
  | inr e ↦
      let (d, rest, lt, eq) =
        print-head f (n / 10) (String.◌∷◌ (char_of "0123456789" (n % 10)) out) in
      (d, rest, lt, rw e eq)
]

cons-ne-empty : (c : Char) (s : String) → (String.◌∷◌ c s =ₛ "") ≡ false
cons-ne-empty c s = elim (Bool-cases (String.◌∷◌ c s =ₛ "")) [
  | inl e ↦ absurd (cons-ne-nil c s ((eq_iff _ _).0 e))
  | inr e ↦ e
]

not_sign : (d : ℕ) → ((d + 48 == 45) ≡ false) × ((d + 48 == 43) ≡ false)
not_sign d = (ground arith, ground arith)

atoi_of_digit :
    (d : ℕ) (s : String)
    → d < 10
    → atoi (String.◌∷◌ (char_of "0123456789" d) s)
      ≡ positive (scan_digits (String.◌∷◌ (char_of "0123456789" d) s) 0)
unfolding atoi unsigned
atoi_of_digit d s h =
    rw (digit_code d h, (not_sign d).0, (not_sign d).1, cons-ne-empty (char_of "0123456789" d) s)
      refl

-- Every count within an int64 is read back.
pub atoi-itoa : (n : ℕ) → n < 2 ^ 63 → atoi (itoa n) ≡ some (pos n)
unfolding itoa positive scan_digits
atoi-itoa n h =
    let (d, rest, lt, eq) = print-head 19 n "" in
    rw eq (
      atoi_of_digit d rest lt
      ∙ ap positive (rw eq at (scan-print 19 n "" (omega arith)))
      ∙ (rw (lt→ltb n (2 ^ 63) h) refl))
