-- ===== src/Api/Security/Laws.antt =====
-- What the sanitised names of files cannot be.
use tinydm.Prelude.{
  ℕ, not, zero, suc, ◌≤◌, ◌≡◌, ◌≢◌, ◌⊎◌, inl, inr, refl, ap, Bool, true, false, ◌&&◌, List, [], ◌∷◌,
  ◌++◌, map, any, All, length, take, ◌∙◌, eqb, leb, ltb, if◌then◌else◌, arith, length-take-le,
  Bool-cases,
}
use tinydm.Utf8.{runes, runes_after, decode_rune, encode, encode_rune}
use tinydm.Utf8.Ascii.{runes-ne}
use tinydm.Api.Security.{
  with_slashes, trim_slashes, last_element, or_root, base, has_slash, slash, replace_control,
  map_runes, is_reserved, unnamed, sanitize_filename,
}

-- Neither a slash nor a control character, as a character and as a byte.
abbrev Plain : ℕ → Type 0
Plain b = (b ≢ slash) × ((0x20 ≤ b) × (b ≢ 0x7f))

abbrev AllPlain : List ℕ → Type 0
AllPlain = All Plain

abbrev NoSlash : List ℕ → Type 0
NoSlash = All (λ b. b ≢ slash)

All-append : (P : ℕ → Type 0) (xs ys : List ℕ) → All P xs → All P ys → All P (xs ++ ys)
All-append P [] ys h k = k
All-append P (x ∷ xs) ys (hx, h) k = (hx, All-append P xs ys h k)

All-take : (P : ℕ → Type 0) (n : ℕ) (xs : List ℕ) → All P xs → All P (take n xs)
All-take P zero xs h = tt
All-take P (suc n) [] h = tt
All-take P (suc n) (x ∷ xs) (hx, h) = (hx, All-take P n xs h)

NoSlash-of_test : (path : List ℕ) → has_slash path ≡ false → NoSlash path
NoSlash-of_test [] h = tt
NoSlash-of_test (b ∷ path) h = (ground arith, NoSlash-of_test path (ground arith))

last_element-NoSlash : (path : List ℕ) → NoSlash (last_element path)
unfolding last_element
last_element-NoSlash [] = tt
last_element-NoSlash (b ∷ path) = elim (Bool-cases (has_slash path)) [
  | inl more ↦ rw more (last_element-NoSlash path)
  | inr none ↦ elim (Bool-cases (eqb b slash)) [
    | inl at ↦ rw (none, at) (NoSlash-of_test path none)
    | inr other ↦ rw (none, other) (ground arith, NoSlash-of_test path none)
  ]
]

or_root-NoSlash :
    (name : List ℕ) → NoSlash name → NoSlash (or_root name) ⊎ (or_root name ≡ slash ∷ [])
or_root-NoSlash [] h = inr refl
or_root-NoSlash (b ∷ bs) h = inl h

-- The last element of a path, or the root.
base-NoSlash : (path : List ℕ) → NoSlash (base path) ⊎ (base path ≡ slash ∷ [])
unfolding base
base-NoSlash [] = inl (ground arith, tt)
base-NoSlash (b ∷ path) =
    or_root-NoSlash (last_element (trim_slashes (b ∷ path))) (last_element-NoSlash _)

-- The characters that are left are plain, but for a slash, and so are the bytes that encode them.
encode_rune-Plain : (r : ℕ) → r ≢ slash → AllPlain (encode_rune (replace_control r))
unfolding encode_rune
encode_rune-Plain r h = ground arith

encode-Plain : (rs : List ℕ) → NoSlash rs → AllPlain (encode (map replace_control rs))
unfolding encode
encode-Plain [] h = tt
encode-Plain (r ∷ rs) (hr, h) =
    All-append Plain (encode_rune (replace_control r)) _ (encode_rune-Plain r hr)
      (encode-Plain rs h)

-- The name, or the root, is shorter than the limit, is not reserved and has plain bytes.
abbrev pub Safe : List ℕ → Type 0
Safe name = (length name ≤ 255) × ((is_reserved name ≡ false) × AllPlain name)

abbrev finished : List ℕ → List ℕ
finished mapped =
    let cut = if ltb 255 (length mapped) then take 255 mapped else mapped in
    if is_reserved cut then unnamed else cut

is_plain : ℕ → Bool
is_plain b = not (eqb b slash) && (leb 0x20 b && not (eqb b 0x7f))

Plain-of_test : (b : ℕ) → is_plain b ≡ true → Plain b
unfolding is_plain
Plain-of_test b h = ground arith

AllPlain-of_test : (bs : List ℕ) → any (λ b. not (is_plain b)) bs ≡ false → AllPlain bs
AllPlain-of_test [] h = tt
AllPlain-of_test (b ∷ bs) h = (Plain-of_test b (ground arith), AllPlain-of_test bs (ground arith))

unnamed-AllPlain : AllPlain unnamed
unfolding is_plain
unnamed-AllPlain = AllPlain-of_test unnamed refl

unless_reserved :
    (cut : List ℕ)
    → length cut ≤ 255
    → AllPlain cut
    → Safe (if is_reserved cut then unnamed else cut)
unless_reserved cut short h = elim (Bool-cases (is_reserved cut)) [
  | inl reserved ↦ rw reserved (omega arith, (refl, unnamed-AllPlain))
  | inr other ↦ rw (other) (short, (other, h))
]

finished-Safe : (mapped : List ℕ) → AllPlain mapped → Safe (finished mapped)
finished-Safe mapped h = elim (Bool-cases (ltb 255 (length mapped))) [
  | inl long ↦
      rw long (
        unless_reserved (take 255 mapped) (length-take-le 255 mapped) (All-take Plain 255 mapped h))
  | inr short ↦ rw short (unless_reserved mapped (ground arith) h)
]

-- The name that sanitizeFilename gives is the root, /, or has at most 255 bytes, is none of "", "."
-- and "..", and has neither a slash nor a control character of ASCII among its bytes.
pub sanitize_filename-Safe :
    (name : List ℕ) → Safe (sanitize_filename name) ⊎ (sanitize_filename name ≡ slash ∷ [])
unfolding sanitize_filename map_runes runes_after decode_rune encode encode_rune
sanitize_filename-Safe name = elim (base-NoSlash (with_slashes name)) [
  | inl plain ↦ inl (finished-Safe _ (encode-Plain _ (runes-ne slash (omega arith) _ plain)))
  | inr root ↦ inr (ap (λ p. finished (encode (map replace_control (runes p)))) root ∙ refl)
]
