-- ===== src/Meta/Reserved.antt =====
-- The keys of `Extract` of internal/meta/extractor.go, against the namespace that the program keeps
-- for metadata.
use tinydm.Prelude.{String, [], ◌==◌, ◌||◌}
use tinydm.Prelude.Texts.{has_prefix}
use tinydm.Meta.Defs.{Reader, Decoders}
use tinydm.Meta.Keys.{NoneReserved, no_props-NoneReserved, if-NoneReserved}
use tinydm.Meta.Text.{is_text}
use tinydm.Meta.Office.{is_ooxml, is_ole2}
use tinydm.Meta.Media.Keys.{
  extract_image-NoneReserved, extract_pdf-NoneReserved, extract_audio-NoneReserved,
  extract_video-NoneReserved,
}
use tinydm.Meta.Office.Keys.{extract_ooxml-NoneReserved, extract_ole2-NoneReserved}
use tinydm.Meta.Text.Keys.{extract_text-NoneReserved}
use tinydm.Meta.{extract}

-- Whatever the content and its type are, no property that Extract finds has a key that begins with
-- sys., the prefix that is kept for the metadata of the system.
pub extract-NoneReserved : (d : Decoders) (ct : String) (r : Reader) → NoneReserved (extract d ct r)
unfolding extract
extract-NoneReserved d ct r =
    if-NoneReserved (has_prefix ct "image/") _ _
      (extract_image-NoneReserved d r [] no_props-NoneReserved ct)
      (if-NoneReserved (ct == "application/pdf") _ _
        (extract_pdf-NoneReserved d r [] no_props-NoneReserved)
        (if-NoneReserved (is_ooxml ct) _ _
          (extract_ooxml-NoneReserved d r [] no_props-NoneReserved ct)
          (if-NoneReserved (is_ole2 ct) _ _ (extract_ole2-NoneReserved d r [] no_props-NoneReserved)
            (if-NoneReserved (has_prefix ct "audio/") _ _
              (extract_audio-NoneReserved d r [] no_props-NoneReserved)
              (if-NoneReserved (ct == "video/mp4" || ct == "video/quicktime") _ _
                (extract_video-NoneReserved d r [] no_props-NoneReserved)
                (if-NoneReserved (is_text ct) _ []
                  (extract_text-NoneReserved [] no_props-NoneReserved r) no_props-NoneReserved))))))
