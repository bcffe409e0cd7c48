-- ===== src/Text/Paths.antt =====
-- `filepath.Base`, `filepath.Ext` (on Unix), `path.Base` and `strings.TrimSuffix`.
use Prim.Native.Char.{code}
use fyredocs_backend.Prelude.{
  Bool, false, inl, inr, Bool-cases, ◌&&◌, ◌||◌, ◌≡◌, refl, ◌≢◌, String, ◌==◌, ◌=ₛ◌, if◌then◌else◌,
  arith,
}

unfoldable pub has_slash : String → Bool
has_slash String.[] = false
has_slash (String.◌∷◌ c s) = code c == b'/' || has_slash s

strip_slashes : String → String
strip_slashes String.[] = ""
strip_slashes (String.◌∷◌ c s) =
    let rest = strip_slashes s in if code c == b'/' && rest =ₛ "" then "" else String.◌∷◌ c rest

after_last_slash : String → String
unfolding has_slash
after_last_slash String.[] = ""
after_last_slash (String.◌∷◌ c s) =
    let rest = after_last_slash s in
    if has_slash s then rest else if code c == b'/' then s else String.◌∷◌ c s

unfoldable pub base : String → String
unfolding strip_slashes after_last_slash
base path =
    if path =ₛ ""
    then "."
    else let name = after_last_slash (strip_slashes path) in if name =ₛ "" then "/" else name

unfoldable pub ext : String → String
unfolding has_slash
ext String.[] = ""
ext (String.◌∷◌ c s) =
    let rest = ext s in
    if rest =ₛ ""
    then if has_slash s then "" else if code c == b'.' then String.◌∷◌ c s else ""
    else rest

unfoldable pub trim_suffix : String → String → String
trim_suffix String.[] t = ""
trim_suffix (String.◌∷◌ c s) t =
    let rest = trim_suffix s t in if String.◌∷◌ c s =ₛ t then "" else String.◌∷◌ c rest

after_last_slash_lem : (s : String) → has_slash (after_last_slash s) ≡ false
unfolding after_last_slash
after_last_slash_lem String.[] = refl
after_last_slash_lem (String.◌∷◌ c s) = ground (arith, after_last_slash_lem s)

-- A base name has no slash, but for the root's.
pub base-has_slash : (path : String) → base path ≢ "/" → has_slash (base path) ≡ false
unfolding base
base-has_slash path h = elim (Bool-cases (path =ₛ "")) [
  | inl e ↦ rw e refl
  | inr e ↦ elim (Bool-cases (after_last_slash (strip_slashes path) =ₛ "")) [
    | inl e' ↦ absurd (h (rw (e, e') refl))
    | inr e' ↦ rw (e, e') (after_last_slash_lem (strip_slashes path))
  ]
]

bases : base "/a/b.pdf//" ≡ "b.pdf"
unfolding base
bases = refl

exts : ext "a.b/c.tar.gz" ≡ ".gz"
unfolding ext
exts = refl

no_ext : ext "a.b/c" ≡ ""
unfolding ext
no_ext = refl

trimmed : trim_suffix "a.tar.gz" ".gz" ≡ "a.tar"
unfolding trim_suffix
trimmed = refl
