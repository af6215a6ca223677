-- ===== src/Meta/Bytes.antt =====
-- Bytes, read as Go reads a slice: an index or a range beyond its end panics, which is none.
use tinydm.Prelude.{
  ℕ, zero, suc, ◌+◌, ◌*◌, ◌-◌, ◌^◌, ◌<◌, ◌≤◌, ◌≡◌, Bool, ◌&&◌, Option, none, some, List, [], ◌∷◌,
  leb, refl, arith, true, false, length, take, drop, if◌then◌else◌,
}

abbrev pub get_elem? : List ℕ → ℕ → Option ℕ
get_elem? [] i = none
get_elem? (x ∷ xs) zero = some x
get_elem? (x ∷ xs) (suc i) = get_elem? xs i

infixl 5 ◌>>=◌
abbrev pub ◌>>=◌ : {A B : Type 0} → Option A → (A → Option B) → Option B
none >>= f = none
some a >>= f = f a

-- uint32(bytes[i]) | uint32(bytes[i+1])<<8 | uint32(bytes[i+2])<<16 | uint32(bytes[i+3])<<24
unfoldable pub le32 : List ℕ → ℕ → Option ℕ
le32 bytes i = do
  a ← get_elem? bytes i
  b ← get_elem? bytes (i + 1)
  c ← get_elem? bytes (i + 2)
  d ← get_elem? bytes (i + 3)
  some (a + b * 2 ^ 8 + c * 2 ^ 16 + d * 2 ^ 24)

-- bytes[i:j]
unfoldable pub range : List ℕ → ℕ → ℕ → Option (List ℕ)
range bytes i j =
    if leb i j && leb j (length bytes) then some (take (j - i) (drop i bytes)) else none

abbrev trim_end : ℕ → List ℕ → List ℕ
trim_end zero [] = []
trim_end b bytes = b ∷ bytes

-- strings.TrimRight(s, "\x00")
unfoldable pub trim_nul : List ℕ → List ℕ
trim_nul [] = []
trim_nul (b ∷ bytes) = trim_end b (trim_nul bytes)

pub get_elem?-some :
    (bytes : List ℕ) (i : ℕ) → i < length bytes → (b : ℕ) × (get_elem? bytes i ≡ some b)
get_elem?-some [] i h = absurd (omega arith)
get_elem?-some (x ∷ xs) zero h = (x, refl)
get_elem?-some (x ∷ xs) (suc i) h = get_elem?-some xs i (omega arith)

-- What does not panic.
abbrev pub Runs : {A : Type 0} → Option A → Type 0
Runs {A} m = (a : A) × (m ≡ some a)

pub >>=-Runs :
    {A B : Type 0} (m : Option A) (f : A → Option B)
    → Runs m
    → ((a : A) → Runs (f a))
    → Runs (m >>= f)
>>=-Runs m f (a, e) h = rw e (h a)

pub if-Runs :
    {A : Type 0} (b : Bool) (m n : Option A)
    → (b ≡ true → Runs m)
    → (b ≡ false → Runs n)
    → Runs (if b then m else n)
if-Runs true m n h k = h refl
if-Runs false m n h k = k refl

-- Four bytes that lie inside are read.
pub le32-some : (bytes : List ℕ) (i : ℕ) → i + 4 ≤ length bytes → Runs (le32 bytes i)
unfolding le32
le32-some bytes i h =
    let (a, ea) = get_elem?-some bytes i (omega arith) in
    let (b, eb) = get_elem?-some bytes (i + 1) (omega arith) in
    let (c, ec) = get_elem?-some bytes (i + 2) (omega arith) in
    let (d, ed) = get_elem?-some bytes (i + 3) (omega arith) in
    (a + b * 2 ^ 8 + c * 2 ^ 16 + d * 2 ^ 24, rw (ea, eb, ec, ed))

pub range-some :
    (bytes : List ℕ) (i j : ℕ)
    → i ≤ j
    → j ≤ length bytes
    → range bytes i j ≡ some (take (j - i) (drop i bytes))
unfolding range
range-some bytes i j lo hi = ground arith
