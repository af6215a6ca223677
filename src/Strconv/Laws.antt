-- ===== src/Strconv/Laws.antt =====
-- Numbers that are printed and read.
use Prim.Native.Char.{code}
use tinydm.Prelude.{
  ℕ, zero, suc, ◌+◌, ◌*◌, ◌/◌, ◌%◌, ◌^◌, ◌<◌, ◌≡◌, ◌∙◌, String, true, some, List, ◌∷◌, ltb, arith,
  ap, refl, Bool-cases, inl, inr, sym, Bool,
}
use tinydm.Prelude.Int.{ℤ, pos, negsuc}
use tinydm.Sql.Like.{codes}
use tinydm.Strconv.{
  digit, digits, digits_onto, is_digit, decimal, unsigned, atoi_codes, parse_int, itoa, positive,
  negative,
}

-- z is an int64.
abbrev pub fits : ℤ → Bool
fits (pos n) = ltb n (2 ^ 63)
fits (negsuc n) = ltb n (2 ^ 63)

code_of_digit : (d : ℕ) → d < 10 → code (digit d) ≡ b'0' + d
code_of_digit zero h = refl
code_of_digit (suc zero) h = refl
code_of_digit (suc (suc zero)) h = refl
code_of_digit (suc (suc (suc zero))) h = refl
code_of_digit (suc (suc (suc (suc zero)))) h = refl
code_of_digit (suc (suc (suc (suc (suc zero))))) h = refl
code_of_digit (suc (suc (suc (suc (suc (suc zero)))))) h = refl
code_of_digit (suc (suc (suc (suc (suc (suc (suc zero))))))) h = refl
code_of_digit (suc (suc (suc (suc (suc (suc (suc (suc zero)))))))) h = refl
code_of_digit (suc (suc (suc (suc (suc (suc (suc (suc (suc zero))))))))) h = refl
code_of_digit (suc (suc (suc (suc (suc (suc (suc (suc (suc (suc d)))))))))) h = absurd (omega arith)

is_digit-digit : (d : ℕ) → d < 10 → is_digit (b'0' + d) ≡ true
is_digit-digit d h = ground arith

digits-digit :
    (n d : ℕ) (rest : List ℕ) → d < 10 → digits n (code (digit d) ∷ rest) ≡ digits (n * 10 + d) rest
digits-digit n d rest h =
    rw (code_of_digit d h, is_digit-digit d h) (ap (λ x. digits (n * 10 + x) rest) (omega arith))

digits-digits_onto :
    (rounds n : ℕ) (text : String)
    → n < rounds
    → digits 0 (codes (digits_onto rounds n text)) ≡ digits n (codes text)
unfolding digits_onto
digits-digits_onto zero n text h = absurd (omega arith)
digits-digits_onto (suc rounds) n text h = elim (Bool-cases (ltb n 10)) [
  | inl last ↦
      rw last (
        digits-digit 0 n (codes text) (ground arith)
        ∙ ap (λ x. digits x (codes text)) (omega arith))
  | inr more ↦ rw more (
      digits-digits_onto rounds (n / 10) (String.◌∷◌ (digit (n % 10)) text) (ground arith)
      ∙ digits-digit (n / 10) (n % 10) (codes text) (omega arith)
      ∙ ap (λ x. digits x (codes text)) (omega arith))
]

-- A number begins with a digit.
digits_onto-head :
    (rounds n : ℕ) (text : String)
    → n < rounds
    → (d : ℕ) × ((d < 10)
        × ((rest : String) × (digits_onto rounds n text ≡ String.◌∷◌ (digit d) rest)))
unfolding digits_onto
digits_onto-head zero n text h = absurd (omega arith)
digits_onto-head (suc rounds) n text h = elim (Bool-cases (ltb n 10)) [
  | inl last ↦ (n, (ground arith, (text, rw last)))
  | inr more ↦
      rw more (digits_onto-head rounds (n / 10) (String.◌∷◌ (digit (n % 10)) text) (ground arith))
]

atoi_codes-unsigned :
    (d : ℕ) (rest : List ℕ)
    → d < 10
    → atoi_codes (code (digit d) ∷ rest) ≡ positive (digits 0 (code (digit d) ∷ rest))
atoi_codes-unsigned d rest h = rw (code_of_digit d h) (ground arith)

unsigned-decimal : (n : ℕ) → unsigned (codes (decimal n)) ≡ some n
unsigned-decimal n =
    let (d, (small, (rest, e))) = digits_onto-head (suc n) n "" (omega arith) in
    rw e (ap (λ t. digits 0 (codes t)) (sym e) ∙ digits-digits_onto (suc n) n "" (omega arith))

parse_decimal : (n : ℕ) → atoi_codes (codes (decimal n)) ≡ positive (some n)
parse_decimal n =
    let (d, (small, (rest, e))) = digits_onto-head (suc n) n "" (omega arith) in
    rw e (
      atoi_codes-unsigned d (codes rest) small
      ∙ ap (λ t. positive (digits 0 (codes t))) (sym e)
      ∙ ap positive (digits-digits_onto (suc n) n "" (omega arith)))

-- What Itoa prints of an int64, Atoi reads as the same number, with no error.
pub parse_int-itoa :
    (z : ℤ) → fits z ≡ true → parse_int (itoa z) ≡ record { value = z; valid = true }
unfolding parse_int itoa
parse_int-itoa (pos n) h = parse_decimal n ∙ rw h
parse_int-itoa (negsuc n) h = ap negative (unsigned-decimal (suc n)) ∙ rw h
