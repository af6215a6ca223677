-- ===== src/Meta/Text.antt =====
-- internal/meta/extractor.go: the encoding and the lines of a text.
pub mod Keys
use tinydm.Prelude.{
  ℕ, zero, suc, String, Bool, true, false, ◌||◌, Option, none, some, List, [], ◌∷◌, eqb,
  if◌then◌else◌, ◌==◌,
}
use tinydm.Prelude.Int.{pos}
use tinydm.Strconv.{itoa}
use tinydm.Utf8.{valid}
use tinydm.Meta.Defs.{Props, put, when_found, Reader}

-- `isText`
unfoldable pub is_text : String → Bool
is_text ct =
    ct == "text/plain"
    || (ct == "text/csv"
        || (ct == "text/html"
            || (ct == "text/css"
                || (ct == "text/javascript"
                    || (ct == "application/json"
                        || (ct == "application/xml" || ct == "text/xml"))))))

-- bytes.Count(data, []byte{'\n'})
unfoldable pub count_lines : List ℕ → ℕ
count_lines [] = 0
count_lines (b ∷ bytes) = let rest = count_lines bytes in if eqb b 0x0a then suc rest else rest

-- `data` begins with the byte order mark.
abbrev pub begins : List ℕ → List ℕ → Bool
begins [] bytes = true
begins (m ∷ mark) [] = false
begins (m ∷ mark) (b ∷ bytes) = let rest = begins mark bytes in if eqb b m then rest else false

-- The encoding, where it is known.
unfoldable pub encoding : List ℕ → Option String
encoding bytes =
    if begins (0xef ∷ 0xbb ∷ 0xbf ∷ []) bytes
    then some "utf-8-bom"
    else if begins (0xff ∷ 0xfe ∷ []) bytes
    then some "utf-16-le"
    else if begins (0xfe ∷ 0xff ∷ []) bytes
    then some "utf-16-be"
    else if valid bytes
    then some "utf-8"
    else none

abbrev text_props : List ℕ → Option String → Props → Props
text_props bytes none props = props
text_props bytes (some enc) props =
    let with_encoding = put "text.encoding" enc props in
    if enc == "utf-8" || enc == "utf-8-bom"
    then put "text.lines" (itoa (pos (count_lines bytes))) with_encoding
    else with_encoding

-- `extractText`
unfoldable pub extract_text : Reader → Props → Props
extract_text r props =
    when_found r.read_all props (λ bytes. text_props bytes (encoding bytes) props)
