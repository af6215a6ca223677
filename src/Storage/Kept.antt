-- ===== src/Storage/Kept.antt =====
-- Content that `Put` of internal/storage/storage.go stores, where no step fails.
use tinydm.Prelude.{
  eq_iff, arith, Bool-cases, ℕ, String, ◌≡◌, refl, ◌∙◌, ap, Option, none, some, List, length,
  if◌then◌else◌, ◌==◌, eq_self, inl, inr,
}
use tinydm.Sql.{ok}
use tinydm.Storage.{Files, Stored, no_fault, put, place, get, key_of, hex_of}
use tinydm.Storage.Laws.{place_done, get_lem}

module _ (sum256 : List ℕ → List ℕ) (bytes : List ℕ) (files : Files) where
  -- No other content has the key of the bytes.
  abbrev pub NoCollision : Type 0
  NoCollision = (other : List ℕ) → files (key_of sum256 bytes) ≡ some other → other ≡ bytes

  abbrev pub put_files : Files
  put_files = (put sum256 no_fault bytes files).1

  abbrev pub put_result : Stored
  put_result = record {
    key = key_of sum256 bytes;
    size = length bytes;
    checksum = hex_of sum256 bytes;
  }

  pub put_succeeds : put sum256 no_fault bytes files ≡ (ok put_result, put_files)
  unfolding put
  put_succeeds =
      ap (λ r. (r, put_files)) (place_done sum256 bytes files (files (key_of sum256 bytes)))

  placed :
      (o : Option (List ℕ))
      → files (key_of sum256 bytes) ≡ o
      → NoCollision
      → (place sum256 no_fault bytes files o).1 (key_of sum256 bytes) ≡ some bytes
  placed none e unique =
      ap (λ b. if b then some bytes else files (key_of sum256 bytes))
        (eq_self (key_of sum256 bytes))
  placed (some old) e unique = e ∙ ap some (unique old e)

  pub get_put : NoCollision → get none (key_of sum256 bytes) put_files ≡ ok bytes
  unfolding put
  get_put unique =
      get_lem sum256 (key_of sum256 bytes) put_files bytes
        (placed (files (key_of sum256 bytes)) refl unique)

  kept_placed :
      (key : String) (old : List ℕ) (o : Option (List ℕ))
      → files (key_of sum256 bytes) ≡ o
      → files key ≡ some old
      → (place sum256 no_fault bytes files o).1 key ≡ some old
  kept_placed key old none e there = elim (Bool-cases (key == key_of sum256 bytes)) [
    | inl same ↦ absurd (
        ground (
          arith,
          eq_iff key (key_of sum256 bytes),
          ap files ((eq_iff key (key_of sum256 bytes)).0 same),
        ))
    | inr other ↦ rw other there
  ]
  kept_placed key old (some new) e there = there

  -- What a file held before, it holds after a `Put`.
  pub get_kept :
      (key : String) (old : List ℕ) → files key ≡ some old → get none key put_files ≡ ok old
  unfolding put
  get_kept key old there =
      get_lem sum256 key put_files old
        (kept_placed key old (files (key_of sum256 bytes)) refl there)
