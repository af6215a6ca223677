-- ===== src/Meta/Ole/Laws.antt =====
-- The parser of summaries does not panic.
use tinydm.Prelude.{
  ℕ, zero, suc, ◌+◌, ◌*◌, ◌≤◌, ◌≡◌, refl, ◌||◌, not, some, List, eqb, leb, ltb, length, arith,
}
use tinydm.Meta.Bytes.{le32-some, range-some, Runs, >>=-Runs, if-Runs}
use tinydm.Meta.Ole.{Summary, read_property, read_properties, parse_ole2_summary_info, no_summary}

module _ (bytes : List ℕ) (section : ℕ) where
  read_property-Runs :
      (base : ℕ) (found : Summary)
      → base + 8 ≤ length bytes
      → Runs (read_property bytes section base found)
  unfolding read_property
  read_property-Runs base found inside = >>=-Runs _ _ (le32-some bytes base (omega arith)) λ id.
      >>=-Runs _ _ (le32-some bytes (base + 4) (omega arith)) λ offset.
        if-Runs (ltb (length bytes) (section + offset + 8)) _ _ (λ out. (found, refl))
          λ inside. >>=-Runs _ _ (le32-some bytes (section + offset) (ground arith)) λ vtype.
            if-Runs (not (eqb vtype 0x1e)) _ _ (λ other. (found, refl))
              λ text. >>=-Runs _ _ (le32-some bytes (section + offset + 4) (ground arith)) λ size.
                if-Runs (ltb (length bytes) (section + offset + 8 + size) || leb size 0) _ _
                  (λ out. (found, refl))
                  λ inside.
                    >>=-Runs _ _ (_, range-some bytes _ _ (omega arith) (ground arith))
                      λ s. (_, refl)

  read_properties-Runs :
      (count left i : ℕ) (found : Summary) → Runs (read_properties bytes section count left i found)
  unfolding read_properties
  read_properties-Runs count zero i found = (found, refl)
  read_properties-Runs count (suc left) i found =
      if-Runs (not (ltb i count)) _ _ (λ done. (found, refl))
        λ more.
          if-Runs (ltb (length bytes) (section + 8 + i * 8 + 8)) _ _ (λ out. (found, refl))
            λ inside.
              >>=-Runs _ _ (read_property-Runs (section + 8 + i * 8) found (ground arith))
                (read_properties-Runs count left (i + 1))

-- On whatever bytes, parseOLE2SummaryInfo ends with a title and an author, which may be empty: no
-- index and no range is out of bounds.
pub parse_ole2_summary_info_total :
    (bytes : List ℕ) → (s : Summary) × (parse_ole2_summary_info bytes ≡ some s)
unfolding parse_ole2_summary_info
parse_ole2_summary_info_total bytes =
    if-Runs (ltb (length bytes) 52) _ _ (λ short. (no_summary, refl))
      λ long. >>=-Runs _ _ (le32-some bytes 0x1c (ground arith)) λ section.
        if-Runs (ltb (length bytes) (section + 8)) _ _ (λ out. (no_summary, refl))
          λ inside.
            >>=-Runs _ _ (le32-some bytes (section + 4) (ground arith))
              λ count. read_properties-Runs bytes section count 64 0 no_summary
