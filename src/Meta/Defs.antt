-- ===== src/Meta/Defs.antt =====
-- The properties that internal/meta/extractor.go collects, and what it reads. The libraries that
-- decode images, EXIF, PDF, zip with XML, compound files, audio tags and MP4 are arguments: what they
-- find, or none where they report an error. `text` is the text of bytes. A Go map is the list of its
-- entries.
use tinydm.Prelude.{ℕ, String, Bool, Option, none, some, List, [], ◌∷◌, if◌then◌else◌, ◌==◌}
use tinydm.Prelude.Int.{ℤ, pos, ltb_ℤ}
use tinydm.Strconv.{itoa}

abbrev pub Props : Type 0
Props = List (String × String)

-- props[key] = value
unfoldable pub put : String → String → Props → Props
put key value [] = (key, value) ∷ []
put key value ((k, v) ∷ props) =
    let rest = put key value props in if k == key then (key, value) ∷ props else (k, v) ∷ rest

-- `if err != nil { return }`
unfoldable pub when_found : {A : Type 0} → Option A → Props → (A → Props) → Props
when_found none props f = props
when_found (some a) props f = f a

-- An assignment under the condition that there is a value.
unfoldable pub put_some : {A : Type 0} → String → (A → String) → Option A → Props → Props
put_some key f none props = props
put_some key f (some a) props = put key (f a) props

unfoldable pub put_nonempty : String → String → Props → Props
put_nonempty key value props = if value == "" then props else put key value props

unfoldable pub put_positive : String → ℤ → Props → Props
put_positive key n props = if ltb_ℤ (pos 0) n then put key (itoa n) props else props

-- The content, as an io.ReadSeeker: what a `Read` of at most so many bytes gives, what `io.ReadAll`
-- gives, or none where it fails, and whether `Seek` to the start succeeds.
pub record Reader : Type 0 where
  pub read : ℕ → List ℕ
  pub read_all : Option (List ℕ)
  pub seek_start : Bool

pub record Image : Type 0 where
  pub width : ℤ
  pub height : ℤ
  pub format : String

-- The tags that can be read, with the numbers as `FormatFloat` and the time as `Format` print them.
pub record Exif : Type 0 where
  pub make : Option String
  pub model : Option String
  pub datetime : Option String
  pub orientation : Option ℤ
  pub lat_long : Option (String × String)

pub record Pdf : Type 0 where
  pub page_count : ℤ
  pub title : String
  pub author : String

-- A token of encoding/xml
pub data Token : Type 0 where
  start_element : String → Token
  char_data : String → Token
  other_token : Token

-- A file of a zip archive: its name and, where it can be opened, the title and the creator that its
-- XML decodes to, and its tokens up to the first error.
pub record ZipFile : Type 0 where
  pub name : String
  pub opened : Option (Option (String × String) × List Token)

-- An entry of a compound file and its content, or none where reading it fails.
pub record OleEntry : Type 0 where
  pub name : String
  pub content : Option (List ℕ)

pub record AudioTags : Type 0 where
  pub title : String
  pub artist : String
  pub album : String
  pub year : ℤ
  pub format : String

-- A box that `ReadBoxStructure` meets, with the payload, or none where it cannot be read.
pub data Mp4Box : Type 0 where
  mvhd : Option (ℕ × ℕ) → Mp4Box
  tkhd : Option (ℕ × ℕ) → Mp4Box
  other_box : Mp4Box

pub record Decoders : Type 0 where
  pub decode_config : List ℕ → Option Image
  pub exif : List ℕ → Option Exif
  pub pdf : Reader → Option Pdf
  pub zip : List ℕ → Option (List ZipFile)
  pub compound_file : List ℕ → Option (List OleEntry)
  pub tags : Reader → Option AudioTags
  pub boxes : Reader → Option (List Mp4Box)
  pub text : List ℕ → String
