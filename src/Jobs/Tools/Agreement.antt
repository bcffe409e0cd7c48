-- ===== src/Jobs/Tools/Agreement.antt =====
-- The tools' tables against each other.
use fyredocs_backend.Prelude.{
  String, Bool, true, false, not, ◌&&◌, ◌||◌, ◌=ₛ◌, ◌≡◌, ◌≢◌, refl, sym, subst, if◌then◌else◌, List,
  [], ◌∷◌, Bool-cases, inl, inr, arith, eq_iff,
}
use fyredocs_backend.Text.Space.{to_lower}
use fyredocs_backend.Text.Paths.{ext}
use fyredocs_backend.Jobs.Tools.{
  service_for_tool, lookup, one_of, pdf_tools, validate_file_type, mime_category,
}

-- A check that passes exactly when the category is none.
record Alike (passes : Bool) (category : String) : Type 0 where
  same : passes ≡ (category =ₛ "")

alike : {x : Bool} {s : String} → x ≡ (s =ₛ "") → Alike x s
alike e = record { same = e }

choose-Alike :
    {x y : Bool} {s t : String} (b : Bool)
    → Alike x s
    → Alike y t
    → Alike (if b then x else y) (if b then s else t)
choose-Alike true hx hy = hx
choose-Alike false hx hy = hy

-- A file without an extension is accepted exactly for the tools without a MIME category: whenever
-- the extension is not checked, the contents are not checked either, and conversely.
pub unchecked_alike :
    (tool name : String) → ext name ≡ "" → validate_file_type tool name ≡ (mime_category tool =ₛ "")
unfolding validate_file_type mime_category to_lower one_of
unchecked_alike tool name e =
    let check =
      choose-Alike {x = to_lower (ext name) =ₛ ".pdf"} {s = "pdf"} (one_of tool pdf_tools)
        (alike (rw e refl))
        (choose-Alike
          {x = one_of (to_lower (ext name)) (".png" ∷ ".jpg" ∷ ".jpeg" ∷ ".webp" ∷ ".pdf" ∷ [])}
          {s = "image"} (one_of tool ("scan-to-pdf" ∷ [])) (alike (rw e refl))
          (choose-Alike {x = one_of (to_lower (ext name)) (".doc" ∷ ".docx" ∷ [])} {s = "word"}
            (one_of tool ("word-to-pdf" ∷ "word-to-odt" ∷ [])) (alike (rw e refl))
            (choose-Alike {x = one_of (to_lower (ext name)) (".xls" ∷ ".xlsx" ∷ [])} {s = "excel"}
              (one_of tool ("excel-to-pdf" ∷ "excel-to-ods" ∷ [])) (alike (rw e refl))
              (choose-Alike {x = one_of (to_lower (ext name)) (".ppt" ∷ ".pptx" ∷ [])} {s = "ppt"}
                (one_of tool ("powerpoint-to-pdf" ∷ "powerpoint-to-odp" ∷ [])) (alike (rw e refl))
                (choose-Alike
                  {x = one_of (to_lower (ext name)) (".png" ∷ ".jpg" ∷ ".jpeg" ∷ ".webp" ∷ [])}
                  {s = "image"} (one_of tool ("image-to-pdf" ∷ [])) (alike (rw e refl))
                  (choose-Alike {x = one_of (to_lower (ext name)) (".odt" ∷ [])} {s = "odt"}
                    (one_of tool ("odt-to-pdf" ∷ [])) (alike (rw e refl))
                    (choose-Alike {x = one_of (to_lower (ext name)) (".ods" ∷ [])} {s = "ods"}
                      (one_of tool ("ods-to-pdf" ∷ [])) (alike (rw e refl))
                      (choose-Alike {x = one_of (to_lower (ext name)) (".odp" ∷ [])} {s = "odp"}
                        (one_of tool ("odp-to-pdf" ∷ [])) (alike (rw e refl))
                        (alike {x = true} {s = ""} refl))))))))) in
    check.same

abbrev routed : String → Bool
routed tool = not (service_for_tool tool =ₛ "") || tool =ₛ "ocr"

abbrev Routed : String → Type 0
Routed tool = routed tool ≡ true

abbrev all_routed : List String → Bool
all_routed [] = true
all_routed (t ∷ ts) = routed t && all_routed ts

member-Routed :
    (tool : String) (ts : List String) → all_routed ts ≡ true → one_of tool ts ≡ true → Routed tool
unfolding one_of
member-Routed tool [] all h = cc
member-Routed tool (t ∷ ts) all h = elim (Bool-cases (tool =ₛ t)) [
  | inl e ↦ subst Routed (sym ((eq_iff tool t).0 e)) (ground (arith, all))
  | inr e ↦ member-Routed tool ts (ground (arith, all)) (rw e at h)
]

-- A tool of one of the cases, or the rest of the switch.
case-Routed :
    (tool : String) (ts : List String) (category rest : String)
    → all_routed ts ≡ true
    → ((rest =ₛ "") ≡ false → Routed tool)
    → ((if one_of tool ts then category else rest) =ₛ "") ≡ false
    → Routed tool
case-Routed tool ts category rest all later h = elim (Bool-cases (one_of tool ts)) [
  | inl e ↦ member-Routed tool ts all e
  | inr e ↦ later (rw e at h)
]

pdf_tools-Routed : all_routed pdf_tools ≡ true
unfolding service_for_tool lookup
pdf_tools-Routed = refl

known-Routed : (tool : String) → (mime_category tool =ₛ "") ≡ false → Routed tool
unfolding mime_category service_for_tool lookup
known-Routed tool = case-Routed tool pdf_tools "pdf" _ pdf_tools-Routed (
    case-Routed tool ("scan-to-pdf" ∷ []) "image" _ refl (
      case-Routed tool ("word-to-pdf" ∷ "word-to-odt" ∷ []) "word" _ refl (
        case-Routed tool ("excel-to-pdf" ∷ "excel-to-ods" ∷ []) "excel" _ refl (
          case-Routed tool ("powerpoint-to-pdf" ∷ "powerpoint-to-odp" ∷ []) "ppt" _ refl (
            case-Routed tool ("image-to-pdf" ∷ []) "image" _ refl (
              case-Routed tool ("odt-to-pdf" ∷ []) "odt" _ refl (
                case-Routed tool ("ods-to-pdf" ∷ []) "ods" _ refl
                  (case-Routed tool ("odp-to-pdf" ∷ []) "odp" "" refl (λ h. cc)))))))))

-- Every tool whose files' contents are checked, "ocr" excepted, is routed to some service.
pub checked_routed :
    (tool : String) → (mime_category tool =ₛ "") ≡ false → tool ≢ "ocr" → service_for_tool tool ≢ ""
checked_routed tool h other e =
    ground
      (arith, known-Routed tool h, eq_iff tool "ocr", eq_iff (service_for_tool tool) "", other, e)
