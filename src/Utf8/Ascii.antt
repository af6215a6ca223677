-- ===== src/Utf8/Ascii.antt =====
-- An ASCII character stands in a text only where its byte does.
use tinydm.Prelude.{
  ℕ, zero, suc, ◌<◌, ◌≤◌, ◌≡◌, ◌≢◌, true, List, [], ◌∷◌, arith, All, ltb, Bool-cases, inl, inr, sym,
  ◌∙◌, refl, ◌⊎◌,
}
use tinydm.Utf8.{two, three, four, decode_rune, rune_of, width_left, runes_after, runes, within}

module _ (a : ℕ) where
  two-ge : (bytes : List ℕ) → within 0xc2 0xdf a ≡ true → 0x80 ≤ rune_of (two a bytes)
  two-ge [] h = omega arith
  two-ge (b ∷ bytes) h = ground arith

  three-ge : (bytes : List ℕ) → within 0xe0 0xef a ≡ true → 0x80 ≤ rune_of (three a bytes)
  three-ge [] h = omega arith
  three-ge (b ∷ []) h = omega arith
  three-ge (b ∷ c ∷ bytes) h = ground arith

  four-ge : (bytes : List ℕ) → within 0xf0 0xf4 a ≡ true → 0x80 ≤ rune_of (four a bytes)
  four-ge [] h = omega arith
  four-ge (b ∷ []) h = omega arith
  four-ge (b ∷ c ∷ []) h = omega arith
  four-ge (b ∷ c ∷ d ∷ bytes) h = ground arith

  decode_rune-ascii :
      (bytes : List ℕ)
      → (0x80 ≤ rune_of (decode_rune a bytes)) ⊎ (rune_of (decode_rune a bytes) ≡ a)
  unfolding decode_rune
  decode_rune-ascii bytes = elim (Bool-cases (ltb a 0x80)) [
    | inl one ↦ inr (rw one refl)
    | inr more ↦ elim (Bool-cases (within 0xc2 0xdf a)) [
      | inl here ↦ inl (rw (more, here) (two-ge bytes here))
      | inr not_two ↦ elim (Bool-cases (within 0xe0 0xef a)) [
        | inl here ↦ inl (rw (more, not_two, here) (three-ge bytes here))
        | inr not_three ↦ elim (Bool-cases (within 0xf0 0xf4 a)) [
          | inl here ↦ inl (rw (more, not_two, not_three, here) (four-ge bytes here))
          | inr not_four ↦ inl (rw (more, not_two, not_three, not_four) (omega arith))
        ]
      ]
    ]
  ]

module _ (k : ℕ) (ascii : k < 0x80) where
  runes_after-ne :
      (skip : ℕ) (bytes : List ℕ)
      → All (λ b. b ≢ k) bytes
      → All (λ r. r ≢ k) (runes_after skip bytes)
  unfolding runes_after
  runes_after-ne zero [] h = tt
  runes_after-ne (suc skip) [] h = tt
  runes_after-ne (suc skip) (a ∷ bytes) (ha, h) = runes_after-ne skip bytes h
  runes_after-ne zero (a ∷ bytes) (ha, h) = (
    elim (decode_rune-ascii a bytes) [
      | inl big ↦ λ e. absurd (omega arith)
      | inr same ↦ λ e. ha (sym same ∙ e)
    ],
    runes_after-ne (width_left (decode_rune a bytes)) bytes h,
  )

  -- An ASCII character that is no byte of a text is none of its characters.
  pub runes-ne : (bytes : List ℕ) → All (λ b. b ≢ k) bytes → All (λ r. r ≢ k) (runes bytes)
  runes-ne bytes h = runes_after-ne 0 bytes h
