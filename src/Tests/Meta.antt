-- ===== src/Tests/Meta.antt =====
-- Content with metadata.
use tinydm.Prelude.{ℕ, ◌≡◌, refl, String, true, none, some, List, [], ◌∷◌, ◌++◌, arith, All}
use tinydm.Utf8.{encode}
use tinydm.Meta.Bytes.{trim_nul}
use tinydm.Meta.Ole.{parse_ole2_summary_info, Summary}
use tinydm.Meta.Ole.Laws.{parse_ole2_summary_info_total}
use tinydm.Meta.Ole.Written.{written, parse-written}
use tinydm.Meta.Defs.{Decoders, Reader, Image}
use tinydm.Meta.Keys.{NoneReserved}
use tinydm.Meta.Reserved.{extract-NoneReserved}
use tinydm.Meta.Laws.{utf_8_props, count_feeds, extract-encode}
use tinydm.Meta.Text.{is_text}
use tinydm.Meta.{extract}

-- Libraries that find nothing in any content.
abbrev pub no_decoders : Decoders
no_decoders = record {
  decode_config = λ bytes. none;
  exif = λ bytes. none;
  pdf = λ r. none;
  zip = λ bytes. none;
  compound_file = λ bytes. none;
  tags = λ r. none;
  boxes = λ r. none;
  text = λ bytes. "text";
}

abbrev pub reader : List ℕ → Reader
reader bytes = record { read = λ n. bytes; read_all = some bytes; seek_start = true }

parse_ole2_summary_info_example : (s : Summary) × (parse_ole2_summary_info [] ≡ some s)
parse_ole2_summary_info_example = parse_ole2_summary_info_total []

parse-written_example :
    parse_ole2_summary_info (written (b'T' ∷ 0 ∷ []) (b'A' ∷ []))
    ≡ some (record { title = trim_nul (b'T' ∷ 0 ∷ []); author = trim_nul (b'A' ∷ []) })
parse-written_example =
    parse-written (b'T' ∷ 0 ∷ []) (b'A' ∷ []) (omega arith) (omega arith) (omega arith)
      (omega arith)

extract-encode_example :
    extract no_decoders "text/plain" (reader (encode (b'a' ∷ 0x0a ∷ 0xe9 ∷ [])))
    ≡ utf_8_props (count_feeds (b'a' ∷ 0x0a ∷ 0xe9 ∷ []))
unfolding is_text
extract-encode_example =
    extract-encode no_decoders "text/plain" (reader (encode (b'a' ∷ 0x0a ∷ 0xe9 ∷ []))) b'a'
      (0x0a ∷ 0xe9 ∷ []) refl refl (refl, (refl, (refl, tt))) (λ e. absurd (omega arith))

-- A PNG of one pixel
abbrev image : Image
image = record {
  width = tinydm.Prelude.Int.pos 1;
  height = tinydm.Prelude.Int.pos 1;
  format = "png";
}

extract-NoneReserved_example : NoneReserved (
    extract
      (record no_decoders { decode_config = λ bytes. some image })
      "image/png"
      (reader (0x89 ∷ [])))
extract-NoneReserved_example =
    extract-NoneReserved (record no_decoders { decode_config = λ bytes. some image }) "image/png"
      (reader (0x89 ∷ []))

-- The parser on a set that another one wrote: the title without its NUL.
title_read :
    parse_ole2_summary_info (written (b'T' ∷ 0 ∷ []) (b'A' ∷ []))
    ≡ some (record { title = b'T' ∷ []; author = b'A' ∷ [] })
unfolding trim_nul
title_read =
    parse-written (b'T' ∷ 0 ∷ []) (b'A' ∷ []) (omega arith) (omega arith) (omega arith)
      (omega arith)
