-- ===== src/Prelude/Texts.antt =====
-- Go's package strings, as far as the program uses it, over the native texts.
use tinydm.Prelude.Tests.{ltb}
use Prim.Native.Nat.{◌-◌, ℕ, ◌+◌}
use Prim.Native.Char.{code}
use mathlib.Core.Bool.{◌&&◌, ◌||◌, Bool}
use tinydm.Prelude.Tests.{leb, eqb, if◌then◌else◌}
use text.Mathlib.Text.{◌==◌, starts_with, find?}
use Prim.Native.String.{String, ◌++◌, len, slice}
use mathlib.Core.Path.{◌≡◌}
use mathlib.Core.Option.{Option, none, some}
use text.Mathlib.TextPositions.{len-append, slice-append_right, starts_with-append}

-- `strings.HasPrefix`
abbrev pub has_prefix : String → String → Bool
has_prefix s prefix = starts_with s prefix

-- `strings.TrimPrefix`
unfoldable pub trim_prefix : String → String → String
trim_prefix s prefix = if starts_with s prefix then slice s (len prefix) (len s) else s

-- `strings.SplitN(s, sep, 2)` and the test that there are two parts
unfoldable pub cut : String → String → Option (String × String)
cut s sep = elim (find? s sep) [
  | none ↦ none
  | some i ↦ some (slice s 0 i, slice s (i + len sep) (len s))
]

-- `unicode.IsSpace`
abbrev is_space : ℕ → Bool
is_space c =
    (leb 9 c && leb c 13)
    || (eqb c 32
        || (eqb c 133
            || (eqb c 160
                || (eqb c 5760
                    || ((leb 8192 c && leb c 8202)
                        || (eqb c 8232
                            || (eqb c 8233 || (eqb c 8239 || (eqb c 8287 || eqb c 12288)))))))))

abbrev trim_left : String → String
trim_left String.[] = ""
trim_left (String.◌∷◌ c s) =
    let rest = trim_left s in if is_space (code c) then rest else String.◌∷◌ c s

abbrev trim_right : String → String
trim_right String.[] = ""
trim_right (String.◌∷◌ c s) =
    let rest = trim_right s in if rest == "" && is_space (code c) then "" else String.◌∷◌ c rest

-- `strings.TrimSpace`
unfoldable pub trim_space : String → String
trim_space s = trim_right (trim_left s)

pub trim_prefix-append : (prefix s : String) → trim_prefix (prefix ++ s) prefix ≡ s
unfolding trim_prefix
trim_prefix-append prefix s =
    rw (starts_with-append prefix s, len-append prefix s) (slice-append_right prefix s)

-- `strings.HasSuffix` and `strings.TrimSuffix`
unfoldable pub has_suffix : String → String → Bool
has_suffix s suffix = leb (len suffix) (len s) && (slice s (len s - len suffix) (len s) == suffix)

unfoldable pub trim_suffix : String → String → String
trim_suffix s suffix = if has_suffix s suffix then slice s 0 (len s - len suffix) else s

-- `len` of a text: the bytes of its UTF-8
unfoldable pub byte_len : String → ℕ
byte_len String.[] = 0
byte_len (String.◌∷◌ c s) =
    let rest = byte_len s in
    let n = code c in
    if ltb n 0x80
    then 1 + rest
    else if ltb n 0x800
    then 2 + rest
    else if ltb n 0x10000
    then 3 + rest
    else 4 + rest
