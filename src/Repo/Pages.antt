-- ===== src/Repo/Pages.antt =====
-- Pagination of internal/repo/store.go: the window is always sound, and the pages that follow one
-- another make up the whole list.
use tinydm.Repo.{order_by, insert_sorted, PageOpts, validated, clamp_limit, paged}
use tinydm.Prelude.{
  Bool, ℕ, zero, suc, ◌+◌, ◌*◌, ◌≤◌, ◌≡◌, refl, sym, ◌∙◌, List, [], ◌∷◌, ◌++◌, arith, length, take,
  drop, ap,
}
use tinydm.Prelude.Int.{ℤ, pos, negsuc, pos_part, neg_part}

clamp_limit_bounds :
    (z : ℤ)
    → (1 ≤ pos_part (clamp_limit z))
      × (pos_part (clamp_limit z) ≤ 500)
      × (clamp_limit (clamp_limit z) ≡ clamp_limit z)
clamp_limit_bounds (pos n) = ground arith
clamp_limit_bounds (negsuc n) = ground arith

validated_offset :
    (p : PageOpts) (n : ℤ)
    → p.offset ≡ n
    → (neg_part (validated p).offset ≡ 0)
      × ((validated (validated p)).offset ≡ (validated p).offset)
unfolding validated
validated_offset p (pos n) e = rw e (ground arith)
validated_offset p (negsuc n) e = rw e (ground arith)

-- What `validated` returns has a limit from 1 to 500 and an offset that is not negative, and a
-- second call changes nothing.
pub validated_bounds :
    (p : PageOpts)
    → (1 ≤ pos_part (validated p).limit)
      × (pos_part (validated p).limit ≤ 500)
      × (neg_part (validated p).offset ≡ 0)
      × (validated (validated p) ≡ validated p)
unfolding validated
validated_bounds p =
    let (low, high, again) = clamp_limit_bounds p.limit in
    let (positive, kept) = validated_offset p p.offset refl in
    (low, high, positive, λ i. record { limit = again i; offset = kept i })

-- Options that are in range are kept.
pub validated_of_valid :
    (n o : ℕ)
    → 1 ≤ n
    → n ≤ 500
    → validated (record { limit = pos n; offset = pos o })
      ≡ record { limit = pos n; offset = pos o }
unfolding validated
validated_of_valid n o low high = ground arith

module _ {A : Type 0} where
  pub take-nil : (n : ℕ) → take {A = A} n [] ≡ []
  take-nil zero = refl
  take-nil (suc n) = refl

  pub drop-nil : (n : ℕ) → drop {A = A} n [] ≡ []
  drop-nil zero = refl
  drop-nil (suc n) = refl

  take_cast : (n m : ℕ) (xs : List A) → n ≡ m → take n xs ≡ take m xs
  take_cast n m xs e = ap (λ k. take k xs) e

  drop_cast : (n m : ℕ) (xs : List A) → n ≡ m → drop n xs ≡ drop m xs
  drop_cast n m xs e = ap (λ k. drop k xs) e

  pub take-add : (n m : ℕ) (xs : List A) → take (n + m) xs ≡ take n xs ++ take m (drop n xs)
  take-add zero m xs = take_cast (zero + m) m xs (omega arith)
  take-add (suc n) m [] = take-nil (suc n + m) ∙ sym (take-nil m)
  take-add (suc n) m (x ∷ xs) =
      take_cast (suc n + m) (suc (n + m)) (x ∷ xs) (omega arith) ∙ ap (◌∷◌ x) (take-add n m xs)

  pub drop-add : (o n : ℕ) (xs : List A) → drop (o + n) xs ≡ drop n (drop o xs)
  drop-add zero n xs = drop_cast (zero + n) n xs (omega arith)
  drop-add (suc o) n [] = drop-nil (suc o + n) ∙ sym (drop-nil n)
  drop-add (suc o) n (x ∷ xs) =
      drop_cast (suc o + n) (suc (o + n)) (x ∷ xs) (omega arith) ∙ drop-add o n xs

  pub take_of_length-le : (n : ℕ) (xs : List A) → length xs ≤ n → take n xs ≡ xs
  take_of_length-le n [] h = take-nil n
  take_of_length-le zero (x ∷ xs) h = absurd (omega arith)
  take_of_length-le (suc n) (x ∷ xs) h = ap (◌∷◌ x) (take_of_length-le n xs (omega arith))

  -- The pages of size `n` from the offset `o` on, `k` of them, one after the other.
  pub walk : ℕ → ℕ → ℕ → List A → List A
  walk n zero o rows = []
  walk n (suc k) o rows =
      paged (record { limit = pos n; offset = pos o }) rows ++ walk n k (o + n) rows

  walk-eq-take : (n k o : ℕ) (rows : List A) → walk n k o rows ≡ take (k * n) (drop o rows)
  unfolding walk
  walk-eq-take n zero o rows = sym (take_cast (zero * n) zero (drop o rows) (omega arith))
  walk-eq-take n (suc k) o rows =
      ap (λ r. take n (drop o rows) ++ r)
        (walk-eq-take n k (o + n) rows ∙ ap (take (k * n)) (drop-add o n rows))
      ∙ sym (take-add n (k * n) (drop o rows))
      ∙ take_cast (n + k * n) (suc k * n) (drop o rows) (grind arith)

  -- Enough pages of any size hold every row once, in the list's order.
  pub walk_all : (n k : ℕ) (rows : List A) → length rows ≤ k * n → walk n k 0 rows ≡ rows
  walk_all n k rows h = walk-eq-take n k 0 rows ∙ take_of_length-le (k * n) rows h

module _ {A : Type 0} (le : A → A → Bool) where
  length-insert_sorted :
      (a : A) (rows : List A) → length (insert_sorted le a rows) ≡ suc (length rows)
  unfolding insert_sorted
  length-insert_sorted a [] = refl
  length-insert_sorted a (b ∷ rows) = ground (arith, length-insert_sorted a rows)

  -- Sorting keeps the number of rows.
  pub length-order_by : (rows : List A) → length (order_by le rows) ≡ length rows
  unfolding order_by
  length-order_by [] = refl
  length-order_by (a ∷ rows) =
      length-insert_sorted a (order_by le rows) ∙ ap suc (length-order_by rows)
