-- ===== src/Strconv.antt =====
-- Go's strconv.Atoi, on 64-bit integers, and strconv.Itoa.
pub mod Laws
use Prim.Native.Char.{Char}
use tinydm.Prelude.{
  ℕ, zero, suc, ◌+◌, ◌-◌, ◌*◌, ◌/◌, ◌%◌, ◌^◌, String, Bool, ◌&&◌, Option, none, some, List, [], ◌∷◌,
  eqb, leb, ltb, if◌then◌else◌,
}
use tinydm.Prelude.Int.{ℤ, pos, negsuc}
use tinydm.Sql.Like.{codes}

abbrev is_digit : ℕ → Bool
is_digit c = leb b'0' c && leb c b'9'

abbrev digits : ℕ → List ℕ → Option ℕ
digits n [] = some n
digits n (c ∷ text) =
    let rest = digits (n * 10 + (c - b'0')) text in if is_digit c then rest else none

abbrev pub unsigned : List ℕ → Option ℕ
unsigned [] = none
unsigned (c ∷ text) = digits 0 (c ∷ text)

-- The number, and whether there is no error: the number of an error is 0, or the nearest int64.
pub record Parsed : Type 0 where
  pub value : ℤ
  pub valid : Bool

abbrev invalid : Parsed
invalid = record { value = pos 0; valid = Bool.false }

abbrev pub positive : Option ℕ → Parsed
positive none = invalid
positive (some n) =
    if ltb n (2 ^ 63)
    then record { value = pos n; valid = Bool.true }
    else record { value = pos (2 ^ 63 - 1); valid = Bool.false }

abbrev pub negative : Option ℕ → Parsed
negative none = invalid
negative (some zero) = record { value = pos 0; valid = Bool.true }
negative (some (suc n)) =
    if ltb n (2 ^ 63)
    then record { value = negsuc n; valid = Bool.true }
    else record { value = negsuc (2 ^ 63 - 1); valid = Bool.false }

abbrev pub atoi_codes : List ℕ → Parsed
atoi_codes [] = invalid
atoi_codes (c ∷ text) =
    if eqb c b'-'
    then negative (unsigned text)
    else if eqb c b'+'
    then positive (unsigned text)
    else positive (unsigned (c ∷ text))

unfoldable pub parse_int : String → Parsed
parse_int s = atoi_codes (codes s)

-- `n, _ := strconv.Atoi(s)`
abbrev pub atoi : String → ℤ
atoi s = (parse_int s).value

abbrev digit : ℕ → Char
digit n =
    if eqb n 0
    then "0"
    else if eqb n 1
    then "1"
    else if eqb n 2
    then "2"
    else if eqb n 3
    then "3"
    else if eqb n 4
    then "4"
    else if eqb n 5
    then "5"
    else if eqb n 6
    then "6"
    else if eqb n 7
    then "7"
    else if eqb n 8
    then "8"
    else "9"

-- The digits of `n` before `text`; the number has fewer of them than `rounds`.
unfoldable pub digits_onto : ℕ → ℕ → String → String
digits_onto zero n text = text
digits_onto (suc rounds) n text =
    let rest = digits_onto rounds (n / 10) (String.◌∷◌ (digit (n % 10)) text) in
    if ltb n 10 then String.◌∷◌ (digit n) text else rest

abbrev decimal : ℕ → String
decimal n = digits_onto (suc n) n ""

-- `strconv.Itoa`
unfoldable pub itoa : ℤ → String
itoa (pos n) = decimal n
itoa (negsuc n) = String.◌∷◌ "-" (decimal (suc n))
