-- ===== src/Utf8/Laws.antt =====
-- Encoded characters decode to themselves, and are valid.
use tinydm.Prelude.{
  ℕ, ◌≡◌, ◌+◌, ◌-◌, ◌≤◌, ◌<◌, ◌*◌, inl, inr, refl, true, some, List, [], ◌∷◌, ◌++◌, arith, All, ap,
  ltb, ◌/◌, ◌%◌, Bool-cases, ◌∙◌, length, suc,
}
use tinydm.Utf8.{
  is_scalar, decode_rune, encode_rune, encode, runes_after, runes, valid_after, valid,
}

abbrev pub AllScalar : List ℕ → Type 0
AllScalar = All (λ c. is_scalar c ≡ true)

-- The characters of two, three and four bytes, by their digits to the base 64.
module _ (rest : List ℕ) where
  decode_two :
      (q r : ℕ)
      → 2 ≤ q
      → q < 32
      → r < 64
      → decode_rune (0xc0 + q) ((0x80 + r) ∷ rest) ≡ some (q * 64 + r, 2)
  unfolding decode_rune
  decode_two q r lo hi hr = ground arith

  decode_three :
      (p q r : ℕ)
      → p < 16
      → q < 64
      → r < 64
      → 0x800 ≤ p * 4096 + q * 64 + r
      → is_scalar (p * 4096 + q * 64 + r) ≡ true
      → decode_rune (0xe0 + p) ((0x80 + q) ∷ (0x80 + r) ∷ rest) ≡ some (p * 4096 + q * 64 + r, 3)
  unfolding decode_rune
  decode_three p q r hp hq hr lo h = ground arith

  decode_four :
      (o p q r : ℕ)
      → o < 5
      → p < 64
      → q < 64
      → r < 64
      → 0x10000 ≤ o * 262144 + p * 4096 + q * 64 + r
      → o * 262144 + p * 4096 + q * 64 + r ≤ 0x10ffff
      → decode_rune (0xf0 + o) ((0x80 + p) ∷ (0x80 + q) ∷ (0x80 + r) ∷ rest)
        ≡ some (o * 262144 + p * 4096 + q * 64 + r, 4)
  unfolding decode_rune
  decode_four o p q r ho hp hq hr lo hi = ground arith

one_byte : (c : ℕ) → ltb c 0x80 ≡ true → (rest : List ℕ) → decode_rune c ([] ++ rest) ≡ some (c, 1)
unfolding decode_rune
one_byte c h rest = ground arith

join_three : (c : ℕ) → c / 4096 * 4096 + c / 64 % 64 * 64 + c % 64 ≡ c
join_three c = omega arith

join_four : (c : ℕ) → c / 262144 * 262144 + c / 4096 % 64 * 4096 + c / 64 % 64 * 64 + c % 64 ≡ c
join_four c = omega arith

-- The bytes of a character: a first one and followers, which decode to it before whatever follows.
abbrev Encodes : ℕ → List ℕ → Type 0
Encodes c bytes =
    (a : ℕ) × ((tail : List ℕ) × ((bytes ≡ a ∷ tail)
        × ((rest : List ℕ) → decode_rune a (tail ++ rest) ≡ some (c, suc (length tail)))))

encode_rune-Encodes : (c : ℕ) → is_scalar c ≡ true → Encodes c (encode_rune c)
unfolding encode_rune
encode_rune-Encodes c h = elim (Bool-cases (ltb c 0x80)) [
  | inl one ↦ (c, ([], (ground arith, one_byte c one)))
  | inr more ↦ elim (Bool-cases (ltb c 0x800)) [
    | inl two ↦ (
      0xc0 + c / 64,
      (
        (0x80 + c % 64) ∷ [],
        (
          ground arith,
          λ rest.
              decode_two rest (c / 64) (c % 64) (ground arith) (ground arith) (ground arith)
              ∙ ap (λ x. some (x, 2)) (omega arith),
        ),
      ),
    )
    | inr more ↦ elim (Bool-cases (ltb c 0x10000)) [
      | inl three ↦ (
        0xe0 + c / 4096,
        (
          (0x80 + c / 64 % 64) ∷ (0x80 + c % 64) ∷ [],
          (
            ground arith,
            λ rest.
                decode_three rest (c / 4096) (c / 64 % 64) (c % 64) (ground arith) (ground arith)
                  (ground arith) (ground arith) (ap is_scalar (join_three c) ∙ h)
                ∙ ap (λ x. some (x, 3)) (join_three c),
          ),
        ),
      )
      | inr more ↦ (
        0xf0 + c / 262144,
        (
          (0x80 + c / 4096 % 64) ∷ (0x80 + c / 64 % 64) ∷ (0x80 + c % 64) ∷ [],
          (
            ground arith,
            λ rest.
                decode_four rest (c / 262144) (c / 4096 % 64) (c / 64 % 64) (c % 64) (ground arith)
                  (ground arith) (ground arith) (ground arith) (ground (arith, join_four c))
                  (ground (arith, join_four c))
                ∙ ap (λ x. some (x, 4)) (join_four c),
          ),
        ),
      )
    ]
  ]
]

pred_suc : (n : ℕ) → suc n - 1 ≡ n
pred_suc n = omega arith

module _ (rest : List ℕ) where
  runes_after_skip : (tail : List ℕ) → runes_after (length tail) (tail ++ rest) ≡ runes rest
  unfolding runes_after
  runes_after_skip [] = refl
  runes_after_skip (b ∷ tail) = runes_after_skip tail

  valid_after_skip : (tail : List ℕ) → valid_after (length tail) (tail ++ rest) ≡ valid rest
  unfolding valid_after
  valid_after_skip [] = refl
  valid_after_skip (b ∷ tail) = valid_after_skip tail

  runes-Encodes :
      (c : ℕ) (bytes : List ℕ) → Encodes c bytes → runes (bytes ++ rest) ≡ c ∷ runes rest
  unfolding runes_after
  runes-Encodes c bytes (a, (tail, (e, decoded))) =
      rw (e, runes_after, decoded rest, pred_suc (length tail))
        (ap (λ cs. c ∷ cs) (runes_after_skip tail))

  valid-Encodes : (c : ℕ) (bytes : List ℕ) → Encodes c bytes → valid (bytes ++ rest) ≡ valid rest
  unfolding valid_after
  valid-Encodes c bytes (a, (tail, (e, decoded))) =
      rw (e, valid_after, decoded rest, pred_suc (length tail)) (valid_after_skip tail)

-- The characters of their encoding are the characters, and the encoding is valid.
pub runes-encode :
    (cs : List ℕ) → AllScalar cs → (runes (encode cs) ≡ cs) × (valid (encode cs) ≡ true)
unfolding runes_after valid_after encode
runes-encode [] h = (refl, refl)
runes-encode (c ∷ cs) (hc, hcs) =
    let bytes = encode_rune-Encodes c hc in
    (
      runes-Encodes (encode cs) c (encode_rune c) bytes ∙ ap (λ l. c ∷ l) (runes-encode cs hcs).0,
      valid-Encodes (encode cs) c (encode_rune c) bytes ∙ (runes-encode cs hcs).1,
    )
