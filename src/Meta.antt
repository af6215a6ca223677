-- ===== src/Meta.antt =====
-- internal/meta/extractor.go: what an upload's content says of itself. The children model the kinds
-- of content.
pub mod Defs
pub mod Bytes
pub mod Ole
pub mod Text
pub mod Media
pub mod Office
pub mod Laws
pub mod Keys
pub mod Reserved
use tinydm.Prelude.{String, Bool, ◌||◌, Option, none, some, List, [], if◌then◌else◌, ◌==◌}
use tinydm.Prelude.Texts.{has_prefix}
use tinydm.Meta.Defs.{Props, Reader, Decoders}
use tinydm.Meta.Text.{is_text, extract_text}
use tinydm.Meta.Media.{extract_image, extract_pdf, extract_audio, extract_video}
use tinydm.Meta.Office.{is_ooxml, extract_ooxml, is_ole2, extract_ole2}

-- `Extract`
unfoldable pub extract : Decoders → String → Reader → Props
extract d content_type r =
    if has_prefix content_type "image/"
    then extract_image d content_type r []
    else if content_type == "application/pdf"
    then extract_pdf d r []
    else if is_ooxml content_type
    then extract_ooxml d content_type r []
    else if is_ole2 content_type
    then extract_ole2 d r []
    else if has_prefix content_type "audio/"
    then extract_audio d r []
    else if content_type == "video/mp4" || content_type == "video/quicktime"
    then extract_video d r []
    else if is_text content_type
    then extract_text r []
    else []
