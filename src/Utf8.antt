-- ===== src/Utf8.antt =====
-- Go's package unicode/utf8, on texts that are lists of bytes.
pub mod Laws
pub mod Ascii
use tinydm.Prelude.{
  ℕ, zero, suc, ◌+◌, ◌-◌, ◌*◌, ◌/◌, ◌%◌, Bool, true, false, ◌&&◌, ◌||◌, Option, none, some, List,
  [], ◌∷◌, ◌++◌, leb, ltb, eqb, if◌then◌else◌,
}

-- utf8.RuneError
abbrev rune_error : ℕ
rune_error = 0xfffd

abbrev pub within : ℕ → ℕ → ℕ → Bool
within lo hi b = leb lo b && leb b hi

abbrev is_continuation : ℕ → Bool
is_continuation b = within 0x80 0xbf b

-- The least and the greatest byte that may follow the first one.
abbrev least_second : ℕ → ℕ
least_second a = if eqb a 0xe0 then 0xa0 else if eqb a 0xf0 then 0x90 else 0x80

abbrev greatest_second : ℕ → ℕ
greatest_second a = if eqb a 0xed then 0x9f else if eqb a 0xf4 then 0x8f else 0xbf

abbrev is_second : ℕ → ℕ → Bool
is_second a b = within (least_second a) (greatest_second a) b

-- The character that a first byte and its followers encode, and its width, or none where they
-- encode none.
abbrev two : ℕ → List ℕ → Option (ℕ × ℕ)
two a [] = none
two a (b ∷ _) = if is_continuation b then some ((a - 0xc0) * 64 + (b - 0x80), 2) else none

abbrev three : ℕ → List ℕ → Option (ℕ × ℕ)
three a [] = none
three a (b ∷ []) = none
three a (b ∷ c ∷ _) =
    if is_second a b && is_continuation c
    then some ((a - 0xe0) * 4096 + (b - 0x80) * 64 + (c - 0x80), 3)
    else none

abbrev four : ℕ → List ℕ → Option (ℕ × ℕ)
four a [] = none
four a (b ∷ []) = none
four a (b ∷ c ∷ []) = none
four a (b ∷ c ∷ d ∷ _) =
    if is_second a b && (is_continuation c && is_continuation d)
    then some ((a - 0xf0) * 262144 + (b - 0x80) * 4096 + (c - 0x80) * 64 + (d - 0x80), 4)
    else none

-- `utf8.DecodeRune`
unfoldable pub decode_rune : ℕ → List ℕ → Option (ℕ × ℕ)
decode_rune a bytes =
    if ltb a 0x80
    then some (a, 1)
    else if within 0xc2 0xdf a
    then two a bytes
    else if within 0xe0 0xef a
    then three a bytes
    else if within 0xf0 0xf4 a
    then four a bytes
    else none

-- The bytes that are left of the character before.
abbrev width_left : Option (ℕ × ℕ) → ℕ
width_left none = 0
width_left (some (rune, width)) = width - 1

abbrev rune_of : Option (ℕ × ℕ) → ℕ
rune_of none = rune_error
rune_of (some (rune, width)) = rune

-- The characters of the bytes after the first `skip` of them, as `range` meets them: a byte that
-- encodes none is read as U+FFFD.
unfoldable pub runes_after : ℕ → List ℕ → List ℕ
runes_after skip [] = []
runes_after (suc skip) (a ∷ bytes) = runes_after skip bytes
runes_after zero (a ∷ bytes) =
    let r = decode_rune a bytes in rune_of r ∷ runes_after (width_left r) bytes

abbrev pub runes : List ℕ → List ℕ
runes bytes = runes_after 0 bytes

abbrev is_some : Option (ℕ × ℕ) → Bool
is_some none = false
is_some (some _) = true

unfoldable pub valid_after : ℕ → List ℕ → Bool
valid_after skip [] = true
valid_after (suc skip) (a ∷ bytes) = valid_after skip bytes
valid_after zero (a ∷ bytes) =
    let r = decode_rune a bytes in is_some r && valid_after (width_left r) bytes

-- `utf8.Valid`
abbrev pub valid : List ℕ → Bool
valid bytes = valid_after 0 bytes

abbrev encode_scalar : ℕ → List ℕ
encode_scalar c =
    if ltb c 0x80
    then c ∷ []
    else if ltb c 0x800
    then (0xc0 + c / 64) ∷ (0x80 + c % 64) ∷ []
    else if ltb c 0x10000
    then (0xe0 + c / 4096) ∷ (0x80 + c / 64 % 64) ∷ (0x80 + c % 64) ∷ []
    else (0xf0 + c / 262144) ∷ (0x80 + c / 4096 % 64) ∷ (0x80 + c / 64 % 64) ∷ (0x80 + c % 64) ∷ []

abbrev pub is_scalar : ℕ → Bool
is_scalar c = ltb c 0xd800 || within 0xe000 0x10ffff c

-- `utf8.AppendRune`, for one character
unfoldable pub encode_rune : ℕ → List ℕ
encode_rune c = if is_scalar c then encode_scalar c else encode_scalar rune_error

unfoldable pub encode : List ℕ → List ℕ
encode [] = []
encode (c ∷ cs) = encode_rune c ++ encode cs
