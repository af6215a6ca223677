-- ===== src/Meta/Ole/Written.antt =====
-- A property set that a writer makes of a title and an author, and what the parser reads of it.
use tinydm.Prelude.{
  ℕ, suc, ◌+◌, ◌-◌, ◌/◌, ◌%◌, ◌^◌, ◌<◌, ◌≤◌, ◌≡◌, refl, true, false, ◌&&◌, some, List, [], ◌∷◌,
  ◌++◌, leb, ltb, length, take, drop, arith, length-append, ◌∙◌, ap, sym,
}
use mathlib.Core.List.{append_assoc, append-nil}
use tinydm.Meta.Bytes.{get_elem?, le32, range, trim_nul}
use tinydm.Meta.Ole.{
  Summary, with_property, read_property, read_properties, parse_ole2_summary_info, no_summary,
}

abbrev bytes32 : ℕ → List ℕ
bytes32 n = (n % 256) ∷ (n / 256 % 256) ∷ (n / 65536 % 256) ∷ (n / 16777216) ∷ []

-- The header of 48 bytes, whose word at 28 is the place of the section; the section, with two
-- entries, for the title and the author; the values.
abbrev zeros_8 : List ℕ
zeros_8 = 0 ∷ 0 ∷ 0 ∷ 0 ∷ 0 ∷ 0 ∷ 0 ∷ 0 ∷ []

abbrev up_to_title : ℕ → List ℕ
up_to_title size =
    zeros_8
    ++ zeros_8
    ++ zeros_8
    ++ bytes32 0
    ++ bytes32 48
    ++ zeros_8
    ++ zeros_8
    ++ bytes32 0
    ++ bytes32 2
    ++ bytes32 2
    ++ bytes32 24
    ++ bytes32 4
    ++ bytes32 (32 + size)
    ++ bytes32 0x1e
    ++ bytes32 size

unfoldable pub written : List ℕ → List ℕ → List ℕ
written title author =
    up_to_title (length title) ++ (title ++ (bytes32 0x1e ++ (bytes32 (length author) ++ author)))

next : (n i : ℕ) → suc n + i ≡ suc (n + i)
next n i = omega arith

get_elem?-append : (xs ys : List ℕ) (i : ℕ) → get_elem? (xs ++ ys) (length xs + i) ≡ get_elem? ys i
get_elem?-append [] ys i = ap (get_elem? ys) (omega arith)
get_elem?-append (x ∷ xs) ys i =
    ap (get_elem? (x ∷ (xs ++ ys))) (next (length xs) i) ∙ get_elem?-append xs ys i

get_elem?-at : (xs ys : List ℕ) → get_elem? (xs ++ ys) (length xs) ≡ get_elem? ys 0
get_elem?-at [] ys = refl
get_elem?-at (x ∷ xs) ys = get_elem?-at xs ys

add_sub : (a b : ℕ) → a + b - a ≡ b
add_sub a b = omega arith

inside :
    (lead s rest : List ℕ)
    → (leb (length lead) (length lead + length s)
        && leb (length lead + length s) (length (lead ++ (s ++ rest))))
      ≡ true
inside lead s rest = ground (arith, length-append lead (s ++ rest), length-append s rest)

drop-append : (xs ys : List ℕ) → drop (length xs) (xs ++ ys) ≡ ys
drop-append [] ys = refl
drop-append (x ∷ xs) ys = drop-append xs ys

take-append : (xs ys : List ℕ) → take (length xs) (xs ++ ys) ≡ xs
take-append [] ys = refl
take-append (x ∷ xs) ys = ap (λ l. x ∷ l) (take-append xs ys)

le32-bytes32 :
    (lead : List ℕ) (n : ℕ) (rest : List ℕ)
    → n < 2 ^ 32
    → le32 (lead ++ (bytes32 n ++ rest)) (length lead) ≡ some n
unfolding le32
le32-bytes32 lead n rest h =
    let word = bytes32 n ++ rest in
    rw
      (
        get_elem?-at lead word,
        get_elem?-append lead word 1,
        get_elem?-append lead word 2,
        get_elem?-append lead word 3,
      )
      (ap some (omega arith))

range-append :
    (lead s rest : List ℕ)
    → range (lead ++ (s ++ rest)) (length lead) (length lead + length s) ≡ some s
unfolding range
range-append lead s rest = rw (inside lead s rest) (
    ap some
      (rw (add_sub (length lead) (length s), drop-append lead (s ++ rest)) (take-append s rest)))

module _ (bytes lead rest : List ℕ) (at : ℕ) where
  le32_at :
      (n : ℕ)
      → bytes ≡ lead ++ (bytes32 n ++ rest)
      → at ≡ length lead
      → n < 2 ^ 32
      → le32 bytes at ≡ some n
  le32_at n e here small = rw (e, here) (le32-bytes32 lead n rest small)

  range_at :
      (s : List ℕ)
      → bytes ≡ lead ++ (s ++ rest)
      → at ≡ length lead
      → range bytes at (at + length s) ≡ some s
  range_at s e here = rw (e, here) (range-append lead s rest)

-- A round on an entry whose value is a text.
read_text :
    (bytes : List ℕ) (section base id offset : ℕ) (s : List ℕ) (found : Summary)
    → le32 bytes base ≡ some id
    → le32 bytes (base + 4) ≡ some offset
    → le32 bytes (section + offset) ≡ some 0x1e
    → le32 bytes (section + offset + 4) ≡ some (length s)
    → range bytes (section + offset + 8) (section + offset + 8 + length s) ≡ some s
    → section + offset + 8 + length s ≤ length bytes
    → 0 < length s
    → read_property bytes section base found ≡ some (with_property id (trim_nul s) found)
unfolding read_property
read_text bytes section base id offset s found e_id e_offset e_type e_size e_range within nonempty =
    rw (e_id, e_offset) (ground arith)

fits : (bytes : List ℕ) (n : ℕ) → n ≤ length bytes → ltb (length bytes) n ≡ false
fits bytes n h = ground arith

-- A property set with two entries.
read_two :
    (bytes : List ℕ) (s t : Summary)
    → 72 ≤ length bytes
    → le32 bytes 0x1c ≡ some 48
    → le32 bytes 52 ≡ some 2
    → read_property bytes 48 56 no_summary ≡ some s
    → read_property bytes 48 64 s ≡ some t
    → parse_ole2_summary_info bytes ≡ some t
unfolding parse_ole2_summary_info read_properties
read_two bytes s t long e_section e_count first second =
    rw
      (
        fits bytes 52 (omega arith),
        e_section,
        fits bytes 56 (omega arith),
        e_count,
        fits bytes 64 (omega arith),
        first,
        fits bytes 72 (omega arith),
        second,
      )
      refl

module _ (title author : List ℕ) where
  abbrev text_after : List ℕ
  text_after = bytes32 0x1e ++ (bytes32 (length author) ++ author)

  length-written : length (written title author) ≡ 88 + length title + length author
  unfolding written
  length-written = ground (arith, length-append title text_after)

  read_title :
      0 < length title
      → length title < 2 ^ 32
      → read_property (written title author) 48 56 no_summary
        ≡ some (record { title = trim_nul title; author = [] })
  unfolding written le32
  read_title nonempty small =
      read_text (written title author) 48 56 2 24 title no_summary refl refl refl
        (ap some (omega arith)) (range-append (up_to_title (length title)) title text_after)
        (omega (arith, length-written)) nonempty

  section_read : le32 (written title author) 0x1c ≡ some 48
  unfolding written le32
  section_read = refl

  count_read : le32 (written title author) 52 ≡ some 2
  unfolding written le32
  count_read = refl

  id_read : le32 (written title author) 64 ≡ some 4
  unfolding written le32
  id_read = refl

  offset_read :
      length title < 2 ^ 32 - 32 → le32 (written title author) 68 ≡ some (32 + length title)
  unfolding written le32
  offset_read small = ap some (omega arith)

  -- The bytes before the author's value, before its length and before its text.
  abbrev lead : List ℕ
  lead = up_to_title (length title) ++ title

  abbrev lead_size : List ℕ
  lead_size = lead ++ bytes32 0x1e

  abbrev lead_text : List ℕ
  lead_text = lead_size ++ bytes32 (length author)

  from_value : written title author ≡ lead ++ text_after
  unfolding written
  from_value = sym (append_assoc (up_to_title (length title)) title text_after)

  from_size : written title author ≡ lead_size ++ (bytes32 (length author) ++ author)
  from_size =
      from_value ∙ sym (append_assoc lead (bytes32 0x1e) (bytes32 (length author) ++ author))

  from_text : written title author ≡ lead_text ++ (author ++ [])
  from_text =
      from_size
      ∙ sym (append_assoc lead_size (bytes32 (length author)) author)
      ∙ ap (λ l. lead_text ++ l) (sym (append-nil author))

  length-lead : length lead ≡ 80 + length title
  length-lead = length-append (up_to_title (length title)) title

  length-lead_size : length lead_size ≡ 84 + length title
  length-lead_size = omega (arith, length-append lead (bytes32 0x1e), length-lead)

  length-lead_text : length lead_text ≡ 88 + length title
  length-lead_text =
      omega (arith, length-append lead_size (bytes32 (length author)), length-lead_size)

  read_author :
      0 < length author
      → length title < 2 ^ 32 - 32
      → length author < 2 ^ 32
      → read_property (written title author) 48 64 (record { title = trim_nul title; author = [] })
        ≡ some (record { title = trim_nul title; author = trim_nul author })
  read_author nonempty small small' =
      read_text (written title author) 48 64 4 (32 + length title) author
        (record { title = trim_nul title; author = [] }) id_read (offset_read small)
        (le32_at (written title author) lead (bytes32 (length author) ++ author) _ 0x1e from_value
          (omega (arith, length-lead)) (omega arith))
        (le32_at (written title author) lead_size author _ (length author) from_size
          (omega (arith, length-lead_size)) small')
        (range_at (written title author) lead_text [] _ author from_text
          (omega (arith, length-lead_text)))
        (omega (arith, length-written)) nonempty

  -- The title and the author that a property set was written with are read back, without the NULs at
  -- their ends, where neither is empty and their lengths fit in the words of the set.
  pub parse-written :
      0 < length title
      → 0 < length author
      → length title < 2 ^ 32 - 32
      → length author < 2 ^ 32
      → parse_ole2_summary_info (written title author)
        ≡ some (record { title = trim_nul title; author = trim_nul author })
  parse-written nonempty nonempty' small small' =
      read_two (written title author) _ _ (omega (arith, length-written)) section_read count_read
        (read_title nonempty (omega arith)) (read_author nonempty' small small')
