-- ===== src/Jobs/Tools.antt =====
-- Which service works for which tool (job-service/internal/routing/routing.go), and the tools' and
-- their files' names (`normalizeToolType`, `outputFileName`, `resolveOutputExt`,
-- `validateFileType`, `mimeCategory` and `validateMIMEHead` of job-service/handlers/jobs.go).
use Prim.Native.String.{◌++◌ as concat}
use fyredocs_backend.Prelude.{
  String, Bool, true, false, not, ◌&&◌, ◌||◌, ◌=ₛ◌, if◌then◌else◌, Option, none, some, List, [],
  ◌∷◌, any,
}
use fyredocs_backend.Text.Space.{trim_space, to_lower}
use fyredocs_backend.Text.Paths.{ext, trim_suffix}
pub mod Agreement
pub mod Names

abbrev pub tool_service_map : List (String × String)
tool_service_map =
    ("pdf-to-word", "convert-from-pdf")
    ∷ ("pdf-to-docx", "convert-from-pdf")
    ∷ ("pdf-to-excel", "convert-from-pdf")
    ∷ ("pdf-to-xlsx", "convert-from-pdf")
    ∷ ("pdf-to-powerpoint", "convert-from-pdf")
    ∷ ("pdf-to-ppt", "convert-from-pdf")
    ∷ ("pdf-to-pptx", "convert-from-pdf")
    ∷ ("pdf-to-image", "convert-from-pdf")
    ∷ ("pdf-to-img", "convert-from-pdf")
    ∷ ("pdf-to-html", "convert-from-pdf")
    ∷ ("pdf-to-text", "convert-from-pdf")
    ∷ ("pdf-to-txt", "convert-from-pdf")
    ∷ ("pdf-to-pdfa", "convert-from-pdf")
    ∷ ("pdf-to-odt", "convert-from-pdf")
    ∷ ("pdf-to-ods", "convert-from-pdf")
    ∷ ("pdf-to-odp", "convert-from-pdf")
    ∷ ("word-to-pdf", "convert-to-pdf")
    ∷ ("excel-to-pdf", "convert-to-pdf")
    ∷ ("powerpoint-to-pdf", "convert-to-pdf")
    ∷ ("ppt-to-pdf", "convert-to-pdf")
    ∷ ("html-to-pdf", "convert-to-pdf")
    ∷ ("image-to-pdf", "convert-to-pdf")
    ∷ ("img-to-pdf", "convert-to-pdf")
    ∷ ("odt-to-pdf", "convert-to-pdf")
    ∷ ("ods-to-pdf", "convert-to-pdf")
    ∷ ("odp-to-pdf", "convert-to-pdf")
    ∷ ("word-to-odt", "convert-to-pdf")
    ∷ ("excel-to-ods", "convert-to-pdf")
    ∷ ("powerpoint-to-odp", "convert-to-pdf")
    ∷ ("merge-pdf", "organize-pdf")
    ∷ ("split-pdf", "organize-pdf")
    ∷ ("rotate-pdf", "organize-pdf")
    ∷ ("remove-pages", "organize-pdf")
    ∷ ("extract-pages", "organize-pdf")
    ∷ ("organize-pdf", "organize-pdf")
    ∷ ("scan-to-pdf", "organize-pdf")
    ∷ ("watermark-pdf", "organize-pdf")
    ∷ ("protect-pdf", "organize-pdf")
    ∷ ("unlock-pdf", "organize-pdf")
    ∷ ("sign-pdf", "organize-pdf")
    ∷ ("edit-pdf", "organize-pdf")
    ∷ ("add-page-numbers", "organize-pdf")
    ∷ ("compress-pdf", "optimize-pdf")
    ∷ ("repair-pdf", "optimize-pdf")
    ∷ ("ocr-pdf", "optimize-pdf")
    ∷ []

-- A text that is not in the map has no service.
unfoldable pub lookup : String → List (String × String) → String
lookup tool [] = ""
lookup tool ((t, service) ∷ rest) =
    let later = lookup tool rest in if tool =ₛ t then service else later

unfoldable pub service_for_tool : String → String
unfolding lookup
service_for_tool tool = lookup tool tool_service_map

-- Nothing for a tool that is not named.
unfoldable pub normalize_tool_type : String → Option String
normalize_tool_type tool_type =
    let tool = trim_space tool_type in
    if tool =ₛ "ppt-to-pdf"
    then some "powerpoint-to-pdf"
    else if tool =ₛ "pdf-to-ppt"
    then some "pdf-to-powerpoint"
    else if tool =ₛ "pdf-to-img"
    then some "pdf-to-image"
    else if tool =ₛ "img-to-pdf"
    then some "image-to-pdf"
    else if tool =ₛ ""
    then none
    else some tool

-- A `case` of a `switch`.
unfoldable pub one_of : String → List String → Bool
one_of tool tools = any (λ t. tool =ₛ t) tools

-- The first `case` of `validateFileType`.
abbrev pub pdf_tools : List String
pdf_tools =
    "pdf-to-word" ∷ "pdf-to-excel" ∷ "pdf-to-powerpoint" ∷ "pdf-to-image" ∷ "pdf-to-html"
    ∷ "pdf-to-text" ∷ "pdf-to-pdfa" ∷ "pdf-to-odt" ∷ "pdf-to-ods" ∷ "pdf-to-odp" ∷ "merge-pdf"
    ∷ "split-pdf" ∷ "compress-pdf" ∷ "rotate-pdf" ∷ "remove-pages" ∷ "extract-pages"
    ∷ "organize-pdf" ∷ "watermark-pdf" ∷ "protect-pdf" ∷ "unlock-pdf" ∷ "sign-pdf" ∷ "edit-pdf"
    ∷ "add-page-numbers" ∷ "repair-pdf" ∷ "ocr-pdf" ∷ "ocr" ∷ []

unfoldable pub validate_file_type : String → String → Bool
validate_file_type tool name =
    let e = to_lower (ext name) in
    if one_of tool pdf_tools
    then e =ₛ ".pdf"
    else if one_of tool ("scan-to-pdf" ∷ [])
    then one_of e (".png" ∷ ".jpg" ∷ ".jpeg" ∷ ".webp" ∷ ".pdf" ∷ [])
    else if one_of tool ("word-to-pdf" ∷ "word-to-odt" ∷ [])
    then one_of e (".doc" ∷ ".docx" ∷ [])
    else if one_of tool ("excel-to-pdf" ∷ "excel-to-ods" ∷ [])
    then one_of e (".xls" ∷ ".xlsx" ∷ [])
    else if one_of tool ("powerpoint-to-pdf" ∷ "powerpoint-to-odp" ∷ [])
    then one_of e (".ppt" ∷ ".pptx" ∷ [])
    else if one_of tool ("image-to-pdf" ∷ [])
    then one_of e (".png" ∷ ".jpg" ∷ ".jpeg" ∷ ".webp" ∷ [])
    else if one_of tool ("odt-to-pdf" ∷ [])
    then one_of e (".odt" ∷ [])
    else if one_of tool ("ods-to-pdf" ∷ [])
    then one_of e (".ods" ∷ [])
    else if one_of tool ("odp-to-pdf" ∷ [])
    then one_of e (".odp" ∷ [])
    else true

-- The first `case` of `mimeCategoryForTool`.
abbrev pub pdf_mime_tools : List String
pdf_mime_tools =
    "pdf-to-word" ∷ "pdf-to-excel" ∷ "pdf-to-powerpoint" ∷ "pdf-to-image" ∷ "pdf-to-html"
    ∷ "pdf-to-text" ∷ "pdf-to-pdfa" ∷ "pdf-to-odt" ∷ "pdf-to-ods" ∷ "pdf-to-odp" ∷ "merge-pdf"
    ∷ "split-pdf" ∷ "compress-pdf" ∷ "rotate-pdf" ∷ "remove-pages" ∷ "extract-pages"
    ∷ "organize-pdf" ∷ "watermark-pdf" ∷ "protect-pdf" ∷ "unlock-pdf" ∷ "sign-pdf" ∷ "edit-pdf"
    ∷ "add-page-numbers" ∷ "repair-pdf" ∷ "ocr-pdf" ∷ "ocr" ∷ []

unfoldable pub mime_category : String → String
mime_category tool =
    if one_of tool pdf_mime_tools
    then "pdf"
    else if one_of tool ("scan-to-pdf" ∷ [])
    then "image"
    else if one_of tool ("word-to-pdf" ∷ "word-to-odt" ∷ [])
    then "word"
    else if one_of tool ("excel-to-pdf" ∷ "excel-to-ods" ∷ [])
    then "excel"
    else if one_of tool ("powerpoint-to-pdf" ∷ "powerpoint-to-odp" ∷ [])
    then "ppt"
    else if one_of tool ("image-to-pdf" ∷ [])
    then "image"
    else if one_of tool ("odt-to-pdf" ∷ [])
    then "odt"
    else if one_of tool ("ods-to-pdf" ∷ [])
    then "ods"
    else if one_of tool ("odp-to-pdf" ∷ [])
    then "odp"
    else ""

unfoldable pub allowed_mime_types : String → List String
allowed_mime_types category =
    if category =ₛ "pdf"
    then "application/pdf" ∷ []
    else if category =ₛ "word"
    then "application/msword"
      ∷ "application/vnd.openxmlformats-officedocument.wordprocessingml.document"
      ∷ "application/zip" ∷ []
    else if category =ₛ "excel"
    then "application/vnd.ms-excel"
      ∷ "application/vnd.openxmlformats-officedocument.spreadsheetml.sheet" ∷ "application/zip" ∷ []
    else if category =ₛ "ppt"
    then "application/vnd.ms-powerpoint"
      ∷ "application/vnd.openxmlformats-officedocument.presentationml.presentation"
      ∷ "application/zip" ∷ []
    else if category =ₛ "image"
    then "image/png" ∷ "image/jpeg" ∷ "image/webp" ∷ []
    else if category =ₛ "odt"
    then "application/vnd.oasis.opendocument.text" ∷ "application/zip" ∷ []
    else if category =ₛ "ods"
    then "application/vnd.oasis.opendocument.spreadsheet" ∷ "application/zip" ∷ []
    else if category =ₛ "odp"
    then "application/vnd.oasis.opendocument.presentation" ∷ "application/zip" ∷ []
    else []

-- `detected` is what `http.DetectContentType` says of the head. Every category has its types.
unfoldable pub validate_mime_head : String → String → Bool
validate_mime_head tool detected =
    let category = mime_category tool in
    if category =ₛ "" then true else one_of detected (allowed_mime_types category)

-- The argument is the text under "outputExt" if the metadata has one. The cases are for
-- `pdf-to-image`, whose default is a ZIP archive.
unfoldable pub resolve_output_ext : Option String → String → String → String × String
resolve_output_ext none e ct = (e, ct)
resolve_output_ext (some out) e ct =
    if out =ₛ ".png"
    then (".png", "image/png")
    else if one_of out (".jpg" ∷ ".jpeg" ∷ [])
    then (out, "image/jpeg")
    else (e, ct)

-- The extension that replaces the input's, and the content type.
unfoldable pub output_kind : String → Option String → String × String
output_kind tool out =
    if tool =ₛ "pdf-to-word"
    then (".docx", "application/vnd.openxmlformats-officedocument.wordprocessingml.document")
    else if tool =ₛ "pdf-to-excel"
    then (".xlsx", "application/vnd.openxmlformats-officedocument.spreadsheetml.sheet")
    else if tool =ₛ "pdf-to-powerpoint"
    then (".pptx", "application/vnd.openxmlformats-officedocument.presentationml.presentation")
    else if tool =ₛ "pdf-to-image"
    then resolve_output_ext out ".zip" "application/zip"
    else if one_of tool ("split-pdf" ∷ "pdf-to-html" ∷ [])
    then (".zip", "application/zip")
    else if tool =ₛ "pdf-to-text"
    then (".txt", "text/plain; charset=utf-8")
    else if one_of tool ("pdf-to-odt" ∷ "word-to-odt" ∷ [])
    then (".odt", "application/vnd.oasis.opendocument.text")
    else if one_of tool ("pdf-to-ods" ∷ "excel-to-ods" ∷ [])
    then (".ods", "application/vnd.oasis.opendocument.spreadsheet")
    else if one_of tool ("pdf-to-odp" ∷ "powerpoint-to-odp" ∷ [])
    then (".odp", "application/vnd.oasis.opendocument.presentation")
    else (".pdf", "application/pdf")

unfoldable pub output_file_name : String → String → Option String → String × String
output_file_name tool input out =
    let (e, content_type) = output_kind tool out in
    (concat (trim_suffix input (ext input)) e, content_type)
