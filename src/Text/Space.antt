-- ===== src/Text/Space.antt =====
-- `strings.TrimSpace`, `strings.Fields` and `strings.ToLower`.
use Prim.Native.Char.{Char, code, nul}
use fyredocs_backend.Prelude.{
  ℕ, zero, suc, ◌-◌, Bool, ◌&&◌, ◌||◌, ◌≡◌, refl, String, leb, ◌==◌, ◌=ₛ◌, if◌then◌else◌, List, [],
  ◌∷◌,
}

-- unicode.IsSpace
unfoldable pub is_space : ℕ → Bool
is_space c =
    (leb 9 c && leb c 13)
    || c == 32
    || c == 0x85
    || c == 0xa0
    || c == 0x1680
    || (leb 0x2000 c && leb c 0x200a)
    || c == 0x2028
    || c == 0x2029
    || c == 0x202f
    || c == 0x205f
    || c == 0x3000

trim_left : String → String
trim_left String.[] = ""
trim_left (String.◌∷◌ c s) =
    let rest = trim_left s in if is_space (code c) then rest else String.◌∷◌ c s

trim_right : String → String
trim_right String.[] = ""
trim_right (String.◌∷◌ c s) =
    let rest = trim_right s in if is_space (code c) && rest =ₛ "" then "" else String.◌∷◌ c rest

unfoldable pub trim_space : String → String
unfolding is_space trim_left trim_right
trim_space s = trim_right (trim_left s)

-- A word to the left of the others, if it is one.
keep_word : String × List String → List String
keep_word (w, ws) = if w =ₛ "" then ws else w ∷ ws

-- The letters up to the first space, and the words behind it.
words_from : String → String × List String
unfolding is_space keep_word
words_from String.[] = ("", [])
words_from (String.◌∷◌ c s) =
    let r = words_from s in if is_space (code c) then ("", keep_word r) else (String.◌∷◌ c r.0, r.1)

-- `strings.Fields`
unfoldable pub fields : String → List String
unfolding words_from keep_word
fields s = keep_word (words_from s)

-- The i-th character of a text.
unfoldable pub char_of : String → ℕ → Char
char_of String.[] i = nul
char_of (String.◌∷◌ c s) zero = c
char_of (String.◌∷◌ c s) (suc i) = char_of s i

-- unicode.ToLower where the result is an ASCII letter. The services compare lower-cased texts with
-- ASCII words only, so other letters are left as they are.
lower_char : Char → Char
unfolding char_of
lower_char c =
    let n = code c in
    if leb 65 n && leb n 90
    then char_of "abcdefghijklmnopqrstuvwxyz" (n - 65)
    else if n == 0x130
    then char_of "i" 0
    else if n == 0x212a
    then char_of "k" 0
    else c

unfoldable pub to_lower : String → String
unfolding lower_char
to_lower String.[] = ""
to_lower (String.◌∷◌ c s) = String.◌∷◌ (lower_char c) (to_lower s)

trims : trim_space " a b  " ≡ "a b"
unfolding trim_space
trims = refl

splits : fields " Bearer  acc " ≡ "Bearer" ∷ "acc" ∷ []
unfolding fields
splits = refl

lowers : to_lower "/ReP.PDF" ≡ "/rep.pdf"
unfolding to_lower
lowers = refl
