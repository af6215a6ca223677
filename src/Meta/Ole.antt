-- ===== src/Meta/Ole.antt =====
-- parseOLE2SummaryInfo of internal/meta/extractor.go: the title and the author in the property set
-- of a document of the former Office formats. None is a panic. The numbers that are added are below
-- 2 ^ 32, so that their sums do not wrap in an `int` of 64 bits.
pub mod Laws
pub mod Written
use tinydm.Prelude.{
  ℕ, zero, suc, ◌+◌, ◌-◌, ◌*◌, Bool, ◌||◌, not, Option, none, some, List, [], eqb, leb, ltb, length,
  if◌then◌else◌,
}
use tinydm.Meta.Bytes.{◌>>=◌, le32, range, trim_nul}

pub record Summary : Type 0 where
  pub title : List ℕ
  pub author : List ℕ

abbrev no_summary : Summary
no_summary = record { title = []; author = [] }

-- `switch propID`
abbrev with_property : ℕ → List ℕ → Summary → Summary
with_property id s found =
    if eqb id 2
    then record found { title = s }
    else if eqb id 4
    then record found { author = s }
    else found

-- A round of the loop, on the entry of the property set at `base`.
unfoldable pub read_property : List ℕ → ℕ → ℕ → Summary → Option Summary
read_property bytes section base found = do
  id ← le32 bytes base
  offset ← le32 bytes (base + 4)
  let abs = section + offset
  if ltb (length bytes) (abs + 8)
      then some found
      else (le32 bytes abs >>= λ vtype.
          if not (eqb vtype 0x1e)
          then some found
          else (le32 bytes (abs + 4) >>= λ size.
              if ltb (length bytes) (abs + 8 + size) || leb size 0
              then some found
              else (range bytes (abs + 8) (abs + 8 + size) >>= λ s.
                  some (with_property id (trim_nul s) found))))

-- The loop, with the rounds that `i < 64` still allows.
unfoldable pub read_properties : List ℕ → ℕ → ℕ → ℕ → ℕ → Summary → Option Summary
read_properties bytes section count zero i found = some found
read_properties bytes section count (suc left) i found =
    let rest = read_properties bytes section count left (i + 1) in
    let base = section + 8 + i * 8 in
    if not (ltb i count)
    then some found
    else if ltb (length bytes) (base + 8)
    then some found
    else read_property bytes section base found >>= rest

unfoldable pub parse_ole2_summary_info : List ℕ → Option Summary
parse_ole2_summary_info bytes =
    if ltb (length bytes) 52
    then some no_summary
    else (le32 bytes 0x1c >>= λ section.
        if ltb (length bytes) (section + 8)
        then some no_summary
        else (le32 bytes (section + 4) >>= λ count.
            read_properties bytes section count 64 0 no_summary))
