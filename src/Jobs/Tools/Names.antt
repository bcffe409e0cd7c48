-- ===== src/Jobs/Tools/Names.antt =====
-- The names of output files.
use Prim.Native.String.{◌++◌ as concat}
use text.Mathlib.TextLemmas.{nil-append, cons-append}
use fyredocs_backend.Prelude.{
  String, Bool, true, false, ◌=ₛ◌, ◌≡◌, refl, inl, inr, sym, ap, ◌∙◌, if◌then◌else◌, Option, none,
  some, [], ◌∷◌, Bool-cases, eq_iff,
}
use fyredocs_backend.Text.Paths.{ext}
use fyredocs_backend.Jobs.Tools.{one_of, resolve_output_ext, output_kind, output_file_name}

-- An appended extension is the extension.
ext-append : (s t : String) → (ext t =ₛ "") ≡ false → ext (concat s t) ≡ ext t
unfolding ext
ext-append String.[] t h = ap ext (nil-append t)
ext-append (String.◌∷◌ c s) t h =
    let ih = ext-append s t h in rw (cons-append c s t, ext, ih, h) refl

-- An independent table: the type of the contents by a file's extension.
unfoldable pub content_type_of : String → String
content_type_of e =
    if e =ₛ ".docx"
    then "application/vnd.openxmlformats-officedocument.wordprocessingml.document"
    else if e =ₛ ".xlsx"
    then "application/vnd.openxmlformats-officedocument.spreadsheetml.sheet"
    else if e =ₛ ".pptx"
    then "application/vnd.openxmlformats-officedocument.presentationml.presentation"
    else if e =ₛ ".zip"
    then "application/zip"
    else if e =ₛ ".txt"
    then "text/plain; charset=utf-8"
    else if e =ₛ ".odt"
    then "application/vnd.oasis.opendocument.text"
    else if e =ₛ ".ods"
    then "application/vnd.oasis.opendocument.spreadsheet"
    else if e =ₛ ".odp"
    then "application/vnd.oasis.opendocument.presentation"
    else if e =ₛ ".png"
    then "image/png"
    else if e =ₛ ".jpg"
    then "image/jpeg"
    else if e =ₛ ".jpeg"
    then "image/jpeg"
    else if e =ₛ ".pdf"
    then "application/pdf"
    else ""

-- An extension that is one, with the type that belongs to it.
record IsKind (k : String × String) : Type 0 where
  named : (ext k.0 =ₛ "") ≡ false
  whole : ext k.0 ≡ k.0
  fits : k.1 ≡ content_type_of k.0

kind :
    (k : String × String)
    → (ext k.0 =ₛ "") ≡ false
    → ext k.0 ≡ k.0
    → k.1 ≡ content_type_of k.0
    → IsKind k
kind k n w f = record { named = n; whole = w; fits = f }

resolve-IsKind : (out : Option String) → IsKind (resolve_output_ext out ".zip" "application/zip")
unfolding resolve_output_ext content_type_of ext one_of
resolve-IsKind none = kind _ refl refl refl
resolve-IsKind (some o) = elim (Bool-cases (o =ₛ ".png")) [
  | inl a ↦ rw (a, resolve_output_ext) (kind _ refl refl refl)
  | inr a ↦ elim (Bool-cases (o =ₛ ".jpg")) [
    | inl b ↦ rw ((eq_iff o ".jpg").0 b) (kind (".jpg", "image/jpeg") refl refl refl)
    | inr b ↦ elim (Bool-cases (o =ₛ ".jpeg")) [
      | inl c ↦ rw ((eq_iff o ".jpeg").0 c) (kind (".jpeg", "image/jpeg") refl refl refl)
      | inr c ↦ rw (a, b, c, resolve_output_ext) (kind _ refl refl refl)
    ]
  ]
]

choose-IsKind :
    {x y : String × String} (b : Bool) → IsKind x → IsKind y → IsKind (if b then x else y)
choose-IsKind true hx hy = hx
choose-IsKind false hx hy = hy

output_kind-IsKind : (tool : String) (out : Option String) → IsKind (output_kind tool out)
unfolding output_kind content_type_of ext
output_kind-IsKind tool out = choose-IsKind (tool =ₛ "pdf-to-word") (kind _ refl refl refl) (
    choose-IsKind (tool =ₛ "pdf-to-excel") (kind _ refl refl refl) (
      choose-IsKind (tool =ₛ "pdf-to-powerpoint") (kind _ refl refl refl) (
        choose-IsKind (tool =ₛ "pdf-to-image") (resolve-IsKind out) (
          choose-IsKind (one_of tool ("split-pdf" ∷ "pdf-to-html" ∷ [])) (kind _ refl refl refl) (
            choose-IsKind (tool =ₛ "pdf-to-text") (kind _ refl refl refl) (
              choose-IsKind (one_of tool ("pdf-to-odt" ∷ "word-to-odt" ∷ []))
                (kind _ refl refl refl)
                (choose-IsKind (one_of tool ("pdf-to-ods" ∷ "excel-to-ods" ∷ []))
                  (kind _ refl refl refl)
                  (choose-IsKind (one_of tool ("pdf-to-odp" ∷ "powerpoint-to-odp" ∷ []))
                    (kind _ refl refl refl) (kind _ refl refl refl)))))))))

-- For every tool, input name and metadata, the content type that is reported for the output is the
-- one that belongs to the extension of the name that is reported for it.
pub output_file_name-FitsType :
    (tool input : String) (out : Option String)
    → let (name, content_type) = output_file_name tool input out in
      content_type ≡ content_type_of (ext name)
unfolding output_file_name
output_file_name-FitsType tool input out =
    let k = output_kind-IsKind tool out in
    k.fits ∙ ap content_type_of (sym (ext-append _ _ k.named ∙ k.whole))
