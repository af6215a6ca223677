-- ===== src/Meta/Office.antt =====
-- internal/meta/extractor.go: the documents of Office, in the present and in the former formats.
pub mod Keys
use tinydm.Prelude.{
  ℕ, String, Bool, true, false, ◌||◌, ◌&&◌, Option, none, some, List, [], ◌∷◌, if◌then◌else◌, ◌==◌,
}
use tinydm.Prelude.Int.{ℤ, pos, ltb_ℤ}
use tinydm.Prelude.Texts.{trim_space}
use tinydm.Strconv.{itoa, parse_int, Parsed}
use tinydm.Meta.Ole.{Summary, parse_ole2_summary_info}
use tinydm.Meta.Defs.{
  Props, put, when_found, put_nonempty, Reader, Decoders, Token, start_element, char_data,
  other_token, ZipFile, OleEntry,
}

abbrev word_type : String
word_type = "application/vnd.openxmlformats-officedocument.wordprocessingml.document"

abbrev sheet_type : String
sheet_type = "application/vnd.openxmlformats-officedocument.spreadsheetml.sheet"

abbrev slide_type : String
slide_type = "application/vnd.openxmlformats-officedocument.presentationml.presentation"

-- `isOOXML`
unfoldable pub is_ooxml : String → Bool
is_ooxml ct = ct == word_type || (ct == sheet_type || ct == slide_type)

-- `isOLE2`
unfoldable pub is_ole2 : String → Bool
is_ole2 ct =
    ct == "application/msword"
    || (ct == "application/vnd.ms-excel" || ct == "application/vnd.ms-powerpoint")

-- The first file of the name: the loops skip the others, and end with it.
unfoldable pub file_named : String → List ZipFile → Option ZipFile
file_named name [] = none
file_named name (f ∷ files) =
    let rest = file_named name files in if f.name == name then some f else rest

unfoldable pub core_decoded : Option (String × String) → Props → Props
core_decoded none props = props
core_decoded (some (title, creator)) props =
    put_nonempty "office.author" creator (put_nonempty "office.title" title props)

-- The loop on docProps/core.xml
unfoldable pub core_props : Option ZipFile → Props → Props
core_props none props = props
core_props (some f) props = when_found f.opened props (λ o. core_decoded o.0 props)

abbrev Counts : Type 0
Counts = List (String × ℤ)

-- counts[cur] = n
abbrev counted : String → String → Counts → Counts
counted cur v counts =
    let n = parse_int v in
    if v == "" then counts else if n.valid then (cur, n.value) ∷ counts else counts

-- The loop on the tokens of docProps/app.xml; the last number for a name counts.
unfoldable pub count_tokens : List Token → String → Counts → Counts
count_tokens [] cur counts = counts
count_tokens (start_element name ∷ tokens) cur counts = count_tokens tokens name counts
count_tokens (char_data t ∷ tokens) cur counts =
    count_tokens tokens cur (counted cur (trim_space t) counts)
count_tokens (other_token ∷ tokens) cur counts = count_tokens tokens cur counts

unfoldable pub count_of : String → Counts → Option ℤ
count_of name [] = none
count_of name ((k, n) ∷ counts) =
    let rest = count_of name counts in if k == name then some n else rest

unfoldable pub put_count : String → Option ℤ → Props → Props
put_count key none props = props
put_count key (some v) props = if ltb_ℤ (pos 0) v then put key (itoa v) props else props

unfoldable pub counts_props : String → Counts → Props → Props
counts_props content_type counts props =
    if content_type == slide_type
    then put_count "office.slide_count" (count_of "Slides" counts) props
    else if content_type == sheet_type
    then put_count "office.sheet_count" (count_of "Sheets" counts) props
    else if content_type == word_type
    then put_count "office.word_count" (count_of "Words" counts) props
    else props

-- The loop on docProps/app.xml
unfoldable pub app_props : String → Option ZipFile → Props → Props
app_props content_type none props = props
app_props content_type (some f) props =
    when_found f.opened props (λ o. counts_props content_type (count_tokens o.1 "" []) props)

-- `extractOOXML`
unfoldable pub extract_ooxml : Decoders → String → Reader → Props → Props
extract_ooxml d content_type r props =
    let found = put "office.container" "ooxml" props in
    when_found r.read_all found λ bytes. when_found (d.zip bytes) found λ files.
      app_props content_type (file_named "docProps/app.xml" files)
        (core_props (file_named "docProps/core.xml" files) found)

unfoldable pub put_bytes : (List ℕ → String) → String → List ℕ → Props → Props
put_bytes text key [] props = props
put_bytes text key (b ∷ bytes) props = put key (text (b ∷ bytes)) props

-- A panic of the parser is a result without properties.
unfoldable pub summary_props : (List ℕ → String) → Option Summary → Props → Props
summary_props text none props = []
summary_props text (some s) props =
    put_bytes text "office.author" s.author (put_bytes text "office.title" s.title props)

unfoldable pub summary_read : (List ℕ → String) → Option (List ℕ) → Props → Props
summary_read text none props = props
summary_read text (some bytes) props = summary_props text (parse_ole2_summary_info bytes) props

-- The loop on the entries
unfoldable pub entries_props : (List ℕ → String) → List OleEntry → Props → Props
entries_props text [] props = props
entries_props text (e ∷ entries) props =
    let rest = entries_props text entries props in
    if e.name == "\u{5}SummaryInformation" then summary_read text e.content props else rest

-- `extractOLE2`
unfoldable pub extract_ole2 : Decoders → Reader → Props → Props
extract_ole2 d r props =
    let found = put "office.container" "ole2" props in
    when_found r.read_all found λ bytes.
      when_found (d.compound_file bytes) found λ entries. entries_props d.text entries found
