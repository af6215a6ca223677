-- ===== src/Api/Security/Kept.antt =====
-- Which names of files are left as they are.
use tinydm.Prelude.{
  ℕ, ◌≤◌, ◌≡◌, ◌≢◌, ◌∙◌, refl, ap, true, false, List, [], ◌∷◌, ◌++◌, map, All, length, ltb, arith,
}
use tinydm.Utf8.{is_scalar, encode, encode_rune}
use tinydm.Utf8.Laws.{runes-encode}
use tinydm.Api.Security.{
  with_slashes, trim_slashes, last_element, or_root, base, has_slash, is_control, replace_control,
  map_runes, is_reserved, sanitize_filename,
}

-- A character that a name may have.
abbrev Allowed : ℕ → Type 0
Allowed c = (is_scalar c ≡ true) × ((is_control c ≡ false) × ((c ≢ b'/') × (c ≢ b'\\')))

abbrev Clean : List ℕ → Type 0
Clean = All (λ b. (b ≢ b'/') × (b ≢ b'\\'))

Clean-append : (xs ys : List ℕ) → Clean xs → Clean ys → Clean (xs ++ ys)
Clean-append [] ys h k = k
Clean-append (x ∷ xs) ys (hx, h) k = (hx, Clean-append xs ys h k)

encode_rune-Clean : (c : ℕ) → Allowed c → Clean (encode_rune c)
unfolding encode_rune
encode_rune-Clean c (scalar, (printing, (no_slash, no_backslash))) = ground arith

encode-Clean : (cs : List ℕ) → All Allowed cs → Clean (encode cs)
unfolding encode
encode-Clean [] h = tt
encode-Clean (c ∷ cs) (hc, h) =
    Clean-append (encode_rune c) (encode cs) (encode_rune-Clean c hc) (encode-Clean cs h)

with_slashes_kept : (name : List ℕ) → Clean name → with_slashes name ≡ name
unfolding with_slashes
with_slashes_kept [] h = refl
with_slashes_kept (b ∷ name) ((_, hb), h) = rw (with_slashes_kept name h) (ground arith)

trim_slashes_kept : (name : List ℕ) → Clean name → trim_slashes name ≡ name
unfolding trim_slashes
trim_slashes_kept [] h = refl
trim_slashes_kept (b ∷ name) ((hb, _), h) = rw (trim_slashes_kept name h) (ground arith)

has_slash-Clean : (name : List ℕ) → Clean name → has_slash name ≡ false
has_slash-Clean [] h = refl
has_slash-Clean (b ∷ name) ((hb, _), h) = ground (arith, has_slash-Clean name h)

last_element_kept : (name : List ℕ) → Clean name → last_element name ≡ name
unfolding last_element
last_element_kept [] h = refl
last_element_kept (b ∷ name) ((hb, _), h) = rw (has_slash-Clean name h) (ground arith)

base_kept : (b : ℕ) (name : List ℕ) → Clean (b ∷ name) → base (b ∷ name) ≡ b ∷ name
unfolding base
base_kept b name h =
    ap or_root (ap last_element (trim_slashes_kept (b ∷ name) h) ∙ last_element_kept (b ∷ name) h)

base_kept_all : (name : List ℕ) → Clean name → is_reserved name ≡ false → base name ≡ name
base_kept_all [] h named = absurd (ground arith)
base_kept_all (b ∷ name) h named = base_kept b name h

replace_control_kept : (cs : List ℕ) → All Allowed cs → map replace_control cs ≡ cs
replace_control_kept [] h = refl
replace_control_kept (c ∷ cs) ((scalar, (printing, other)), h) =
    rw (replace_control_kept cs h) (ground arith)

AllScalar-Allowed : (cs : List ℕ) → All Allowed cs → All (λ c. is_scalar c ≡ true) cs
AllScalar-Allowed [] h = tt
AllScalar-Allowed (c ∷ cs) ((scalar, _), h) = (scalar, AllScalar-Allowed cs h)

not_longer : (name : List ℕ) → length name ≤ 255 → ltb 255 (length name) ≡ false
not_longer name h = ground arith

-- sanitizeFilename keeps the UTF-8 of a name without slashes, backslashes and control characters, of
-- at most 255 bytes, that is none of "", "." and "..".
pub sanitize_filename-encode :
    (cs : List ℕ)
    → All Allowed cs
    → length (encode cs) ≤ 255
    → is_reserved (encode cs) ≡ false
    → sanitize_filename (encode cs) ≡ encode cs
unfolding sanitize_filename map_runes
sanitize_filename-encode cs h short named =
    let clean = encode-Clean cs h in
    rw
      (
        with_slashes_kept (encode cs) clean,
        base_kept_all (encode cs) clean named,
        (runes-encode cs (AllScalar-Allowed cs h)).0,
        replace_control_kept cs h,
      )
      (rw (not_longer (encode cs) short, named) refl)
