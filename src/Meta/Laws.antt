-- ===== src/Meta/Laws.antt =====
-- What `Extract` of internal/meta/extractor.go finds in a text.
use tinydm.Prelude.{
  ℕ, suc, ◌≡◌, ◌≢◌, ◌∙◌, refl, ap, String, Bool, true, false, ◌||◌, some, List, [], ◌∷◌, ◌++◌, eqb,
  arith, if◌then◌else◌, ◌==◌, subst, sym, eq_iff,
}
use tinydm.Prelude.Int.{pos}
use tinydm.Strconv.{itoa}
use tinydm.Utf8.{is_scalar, encode_rune, encode}
use tinydm.Utf8.Laws.{AllScalar, runes-encode}
use tinydm.Meta.Text.{is_text, count_lines, begins, encoding, extract_text}
use tinydm.Meta.Defs.{Props, Reader, Decoders, put, when_found}
use tinydm.Meta.Office.{is_ooxml, is_ole2}
use tinydm.Meta.{extract}

-- The number of line feeds among characters.
pub count_feeds : List ℕ → ℕ
count_feeds [] = 0
count_feeds (c ∷ cs) = let rest = count_feeds cs in if eqb c 0x0a then suc rest else rest

module _ (c : ℕ) (rest : List ℕ) (scalar : is_scalar c ≡ true) where
  count_lines-encode_rune :
      count_lines (encode_rune c ++ rest)
      ≡ (if eqb c 0x0a then suc (count_lines rest) else count_lines rest)
  unfolding count_lines encode_rune
  count_lines-encode_rune = ground arith

  no_mark : c ≢ 0xfeff → begins (0xef ∷ 0xbb ∷ 0xbf ∷ []) (encode_rune c ++ rest) ≡ false
  unfolding encode_rune
  no_mark other = ground arith

  no_utf_16 :
      (begins (0xff ∷ 0xfe ∷ []) (encode_rune c ++ rest) ≡ false)
      × (begins (0xfe ∷ 0xff ∷ []) (encode_rune c ++ rest) ≡ false)
  unfolding encode_rune
  no_utf_16 = ground arith

count_lines-encode : (cs : List ℕ) → AllScalar cs → count_lines (encode cs) ≡ count_feeds cs
unfolding count_lines encode count_feeds
count_lines-encode [] h = refl
count_lines-encode (c ∷ cs) (hc, hcs) =
    count_lines-encode_rune c (encode cs) hc
    ∙ ap (λ n. if eqb c 0x0a then suc n else n) (count_lines-encode cs hcs)

encoding-encode :
    (c : ℕ) (cs : List ℕ)
    → AllScalar (c ∷ cs)
    → c ≢ 0xfeff
    → encoding (encode (c ∷ cs)) ≡ some "utf-8"
unfolding encoding encode
encoding-encode c cs (hc, hcs) other = rw (
  no_mark c (encode cs) hc other,
  (no_utf_16 c (encode cs) hc).0,
  (no_utf_16 c (encode cs) hc).1,
  (runes-encode (c ∷ cs) (hc, hcs)).1,
)

pub utf_8_props : ℕ → Props
utf_8_props lines = ("text.encoding", "utf-8") ∷ ("text.lines", itoa (pos lines)) ∷ []

or_elim : {P : Type 0} (a b : Bool) → (a || b) ≡ true → (a ≡ true → P) → (b ≡ true → P) → P
or_elim true b h left right = left refl
or_elim false b h left right = right h

module _ (d : Decoders) (ct : String) (r : Reader) where
  at_type :
      (t : String)
      → extract d t r ≡ extract_text r []
      → (ct == t) ≡ true
      → extract d ct r ≡ extract_text r []
  at_type t e h = subst (λ x. extract d x r ≡ extract_text r []) (sym ((eq_iff ct t).0 h)) e

  -- The types of texts have no extractor that comes before theirs.
  extract-is_text : is_text ct ≡ true → extract d ct r ≡ extract_text r []
  unfolding extract is_text is_ooxml is_ole2
  extract-is_text h = or_elim _ _ h (at_type "text/plain" refl) λ h.
      or_elim _ _ h (at_type "text/csv" refl) λ h. or_elim _ _ h (at_type "text/html" refl) λ h.
        or_elim _ _ h (at_type "text/css" refl) λ h.
          or_elim _ _ h (at_type "text/javascript" refl) λ h.
            or_elim _ _ h (at_type "application/json" refl)
              λ h. or_elim _ _ h (at_type "application/xml" refl) (at_type "text/xml" refl)

-- Of a text, not empty and without a byte order mark, whose bytes encode characters in UTF-8,
-- Extract says that it is UTF-8 and how many line feeds it has, and nothing else.
pub extract-encode :
    (d : Decoders) (ct : String) (r : Reader) (c : ℕ) (cs : List ℕ)
    → is_text ct ≡ true
    → r.read_all ≡ some (encode (c ∷ cs))
    → AllScalar (c ∷ cs)
    → c ≢ 0xfeff
    → extract d ct r ≡ utf_8_props (count_feeds (c ∷ cs))
unfolding extract_text when_found put utf_8_props
extract-encode d ct r c cs text content scalars other =
    extract-is_text d ct r text
    ∙ rw (content, encoding-encode c cs scalars other, count_lines-encode (c ∷ cs) scalars) refl
