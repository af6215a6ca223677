-- ===== src/Api/Security.antt =====
-- internal/api/security.go: the names of uploaded files. A text of Go is the list of its bytes.
pub mod Laws
pub mod Kept
use tinydm.Prelude.{
  ℕ, String, Bool, true, false, ◌||◌, ◌&&◌, List, [], ◌∷◌, map, any, length, take, eqb, leb, ltb,
  if◌then◌else◌,
}
use tinydm.Utf8.{runes, encode}

abbrev pub slash : ℕ
slash = b'/'

abbrev dot : ℕ
dot = b'.'

-- strings.ReplaceAll(name, "\\", "/")
unfoldable pub with_slashes : List ℕ → List ℕ
with_slashes [] = []
with_slashes (b ∷ name) = (if eqb b b'\\' then slash else b) ∷ with_slashes name

abbrev is_nil : List ℕ → Bool
is_nil [] = true
is_nil (b ∷ bs) = false

abbrev has_slash : List ℕ → Bool
has_slash = any (λ b. eqb b slash)

-- The path without the slashes at its end, and what stands after its last slash.
unfoldable pub trim_slashes : List ℕ → List ℕ
trim_slashes [] = []
trim_slashes (b ∷ path) =
    let rest = trim_slashes path in if is_nil rest && eqb b slash then [] else b ∷ rest

unfoldable pub last_element : List ℕ → List ℕ
last_element [] = []
last_element (b ∷ path) =
    let rest = last_element path in
    if has_slash path then rest else if eqb b slash then path else b ∷ path

-- The root has no last element.
abbrev or_root : List ℕ → List ℕ
or_root [] = slash ∷ []
or_root (b ∷ bs) = b ∷ bs

-- `filepath.Base`
unfoldable pub base : List ℕ → List ℕ
base [] = dot ∷ []
base (b ∷ path) = or_root (last_element (trim_slashes (b ∷ path)))

-- `unicode.IsControl`
abbrev is_control : ℕ → Bool
is_control r = ltb r 0x20 || (leb 0x7f r && ltb r 0xa0)

abbrev replace_control : ℕ → ℕ
replace_control r = if eqb r 0 || is_control r then b'_' else r

-- `strings.Map`
unfoldable pub map_runes : (ℕ → ℕ) → List ℕ → List ℕ
map_runes f name = encode (map f (runes name))

abbrev unnamed : List ℕ
unnamed = b'u' ∷ b'n' ∷ b'n' ∷ b'a' ∷ b'm' ∷ b'e' ∷ b'd' ∷ []

-- The names "", "." and ".."
abbrev is_reserved : List ℕ → Bool
is_reserved [] = true
is_reserved (a ∷ []) = eqb a dot
is_reserved (a ∷ b ∷ []) = eqb a dot && eqb b dot
is_reserved (a ∷ b ∷ c ∷ name) = false

-- `sanitizeFilename`
unfoldable pub sanitize_filename : List ℕ → List ℕ
sanitize_filename name =
    let mapped = map_runes replace_control (base (with_slashes name)) in
    let cut = if ltb 255 (length mapped) then take 255 mapped else mapped in
    if is_reserved cut then unnamed else cut
