-- ===== src/Meta/Media.antt =====
-- internal/meta/extractor.go: images, PDF, audio and video.
pub mod Keys
use tinydm.Prelude.{
  ℕ, zero, suc, ◌-◌, ◌/◌, ◌^◌, String, Bool, true, false, ◌||◌, ◌&&◌, Option, none, some, List, [],
  ◌∷◌, eqb, ltb, if◌then◌else◌, ◌==◌,
}
use tinydm.Prelude.Int.{ℤ, pos, negsuc}
use tinydm.Prelude.Texts.{trim_space}
use tinydm.Strconv.{itoa}
use tinydm.Meta.Text.{begins}
use tinydm.Meta.Defs.{
  Props, put, when_found, put_some, put_nonempty, put_positive, Reader, Decoders, Image, Exif, Pdf,
  AudioTags, Mp4Box, mvhd, tkhd, other_box,
}

unfoldable pub put_position : Option (String × String) → Props → Props
put_position none props = props
put_position (some (lat, lon)) props = put "image.gps_lon" lon (put "image.gps_lat" lat props)

-- `extractEXIF`
unfoldable pub extract_exif : Option Exif → Props → Props
extract_exif none props = props
extract_exif (some x) props =
    let with_make = put_some "image.make" trim_space x.make props in
    let with_model = put_some "image.model" trim_space x.model with_make in
    let with_datetime = put_some "image.datetime" (λ t. t) x.datetime with_model in
    let with_orientation = put_some "image.orientation" itoa x.orientation with_datetime in
    put_position x.lat_long with_orientation

unfoldable pub image_props : Image → Props → Props
image_props cfg props =
    put "image.format" cfg.format
      (put "image.height" (itoa cfg.height) (put "image.width" (itoa cfg.width) props))

-- `extractImage`
unfoldable pub extract_image : Decoders → String → Reader → Props → Props
extract_image d content_type r props = when_found r.read_all props λ bytes.
    when_found (d.decode_config bytes) props λ cfg.
      let found = image_props cfg props in
      if content_type == "image/jpeg" then extract_exif (d.exif bytes) found else found

abbrev is_end : ℕ → Bool
is_end b = eqb b 0x0d || (eqb b 0x0a || (eqb b 0x20 || eqb b 0))

-- The bytes before the first of \r, \n, a space and NUL.
abbrev up_to_end : List ℕ → List ℕ
up_to_end [] = []
up_to_end (b ∷ bytes) = let rest = up_to_end bytes in if is_end b then [] else b ∷ rest

-- What follows %PDF-
abbrev after_mark : List ℕ → List ℕ
after_mark (b0 ∷ b1 ∷ b2 ∷ b3 ∷ b4 ∷ rest) =
    if begins (0x25 ∷ 0x50 ∷ 0x44 ∷ 0x46 ∷ 0x2d ∷ []) (b0 ∷ b1 ∷ b2 ∷ b3 ∷ b4 ∷ [])
    then rest
    else []
after_mark _ = []

unfoldable pub version_props : (List ℕ → String) → List ℕ → Props → Props
version_props text [] props = props
version_props text (b ∷ version) props = put "pdf.version" (text (b ∷ version)) props

unfoldable pub pdf_props : Option Pdf → Props → Props
pdf_props none props = props
pdf_props (some ctx) props =
    put_nonempty "pdf.author" ctx.author
      (put_nonempty "pdf.title" ctx.title (put_positive "pdf.pages" ctx.page_count props))

-- `extractPDF`
unfoldable pub extract_pdf : Decoders → Reader → Props → Props
extract_pdf d r props =
    let found = version_props d.text (up_to_end (after_mark (r.read 16))) props in
    if r.seek_start then pdf_props (d.pdf r) found else found

-- `extractAudio`
unfoldable pub extract_audio : Decoders → Reader → Props → Props
extract_audio d r props = when_found (d.tags r) props λ m. put "audio.format" m.format (
    put_positive "audio.year" m.year (
      put_nonempty "audio.album" m.album
        (put_nonempty "audio.artist" m.artist (put_nonempty "audio.title" m.title props))))

-- The variables of `extractVideo`
pub record Video : Type 0 where
  pub time_scale : ℕ
  pub duration_units : ℕ
  pub width : ℕ
  pub height : ℕ

-- The callback of `ReadBoxStructure`
unfoldable pub on_box : Mp4Box → Video → Video
on_box (mvhd none) v = v
on_box (mvhd (some (scale, units))) v = record v { time_scale = scale; duration_units = units }
on_box (tkhd none) v = v
on_box (tkhd (some (w, h))) v =
    if eqb v.width 0 && (ltb 0 w && ltb 0 h) then record v { width = w; height = h } else v
on_box other_box v = v

unfoldable pub on_boxes : List Mp4Box → Video → Video
on_boxes [] v = v
on_boxes (b ∷ boxes) v = on_boxes boxes (on_box b v)

-- int(n), for n of 64 bits
abbrev pub int_of : ℕ → ℤ
int_of n = if ltb n (2 ^ 63) then pos n else negsuc (2 ^ 64 - 1 - n)

-- Division by zero is guarded by its condition; `/` on ℕ is then Go's.
unfoldable pub duration_props : Video → Props → Props
duration_props v props =
    if ltb 0 v.time_scale && ltb 0 v.duration_units
    then put "video.duration_s" (itoa (int_of (v.duration_units / v.time_scale))) props
    else props

unfoldable pub size_props : Video → Props → Props
size_props v props =
    if ltb 0 v.width
    then put "video.height" (itoa (pos v.height)) (put "video.width" (itoa (pos v.width)) props)
    else props

abbrev no_video : Video
no_video = record { time_scale = 0; duration_units = 0; width = 0; height = 0 }

-- `extractVideo`
unfoldable pub extract_video : Decoders → Reader → Props → Props
extract_video d r props =
    when_found (d.boxes r) props
      λ boxes. let v = on_boxes boxes no_video in size_props v (duration_props v props)
