-- ===== src/Tests/ToolTests.antt =====
-- Tools at concrete inputs.
use fyredocs_backend.Prelude.{◌≡◌, ◌≢◌, refl, some, ◌=ₛ◌}
use fyredocs_backend.Text.Paths.{ext}
use fyredocs_backend.Jobs.Tools.{
  output_file_name, validate_file_type, mime_category, service_for_tool, one_of,
}
use fyredocs_backend.Jobs.Tools.Names.{content_type_of, output_file_name-FitsType}
use fyredocs_backend.Jobs.Tools.Agreement.{unchecked_alike, checked_routed}

output_file_name-FitsType_example :
    (output_file_name "pdf-to-image" "scan.pdf" (some ".jpg")).1
    ≡ content_type_of (ext (output_file_name "pdf-to-image" "scan.pdf" (some ".jpg")).0)
output_file_name-FitsType_example =
    output_file_name-FitsType "pdf-to-image" "scan.pdf" (some ".jpg")

unchecked_alike_example :
    validate_file_type "pdf-to-docx" "report" ≡ (mime_category "pdf-to-docx" =ₛ "")
unfolding ext
unchecked_alike_example = unchecked_alike "pdf-to-docx" "report" refl

checked_routed_example : service_for_tool "scan-to-pdf" ≢ ""
unfolding mime_category one_of
checked_routed_example = checked_routed "scan-to-pdf" refl (λ e. cc)
