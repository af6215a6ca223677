-- ===== src/Storage/Laws.antt =====
-- The local store of internal/storage/storage.go is addressed by content.
use tinydm.Storage.{
  stored, place, Files, PutFault, no_fault, create_fault, copy_fault, close_fault, mkdir_fault,
  stat_fault, rename_fault, Stored, with_file, key_of, put, get,
}
use Prim.Native.String.{◌++◌}
use tinydm.Sql.{plain, Error, ok, err}
use tinydm.Prelude.{
  sym, ap, ◌∙◌, ℕ, String, ◌≡◌, refl, Bool, true, false, Option, none, some, List, arith, inl, inr,
  Bool-cases, ◌==◌, eq_iff, eq_self, if◌then◌else◌,
}

same_content : (a b : List ℕ) → some a ≡ some b → a ≡ b
same_content a b e = ground arith

module _ (sum256 : List ℕ → List ℕ) where
  -- Every file has the name that its content gives.
  abbrev Addressed : Files → Type 0
  Addressed files =
      (key : String) (content : List ℕ) → files key ≡ some content → key ≡ key_of sum256 content

  here_lem :
      (key : String) (content other : List ℕ) (o : Option (List ℕ))
      → (key == key_of sum256 content) ≡ true
      → (if key == key_of sum256 content then some content else o) ≡ some other
      → key ≡ key_of sum256 other
  here_lem key content other o same found =
      (eq_iff key (key_of sum256 content)).0 same
      ∙ ap (key_of sum256)
          (same_content content other (sym (ap (λ b. if b then some content else o) same) ∙ found))

  there_lem :
      (b : Bool) (o o' : Option (List ℕ)) (other : List ℕ)
      → b ≡ false
      → (if b then o' else o) ≡ some other
      → o ≡ some other
  there_lem true o o' other e found = cc
  there_lem false o o' other e found = found

  kept :
      (files : Files) (content : List ℕ)
      → Addressed files
      → Addressed (with_file (key_of sum256 content) content files)
  kept files content h key other found = elim (Bool-cases (key == key_of sum256 content)) [
    | inl same ↦ here_lem key content other (files key) same found
    | inr apart ↦
        h key other
          (there_lem (key == key_of sum256 content) (files key) (some content) other apart found)
  ]

  place-Addressed :
      (fault : PutFault) (content : List ℕ) (files : Files) (o : Option (List ℕ))
      → Addressed files
      → Addressed (place sum256 fault content files o).1
  place-Addressed no_fault content files none h = kept files content h
  place-Addressed no_fault content files (some old) h = h
  place-Addressed (create_fault e) content files none h = kept files content h
  place-Addressed (create_fault e) content files (some old) h = h
  place-Addressed (copy_fault e) content files none h = kept files content h
  place-Addressed (copy_fault e) content files (some old) h = h
  place-Addressed (close_fault e) content files none h = kept files content h
  place-Addressed (close_fault e) content files (some old) h = h
  place-Addressed (mkdir_fault e) content files none h = kept files content h
  place-Addressed (mkdir_fault e) content files (some old) h = h
  place-Addressed (stat_fault e) content files o h = h
  place-Addressed (rename_fault e) content files none h = h
  place-Addressed (rename_fault e) content files (some old) h = h

  -- `Put` keeps every file under the name that its content gives, also where a step fails.
  pub put-Addressed :
      (fault : PutFault) (content : List ℕ) (files : Files)
      → Addressed files
      → Addressed (put sum256 fault content files).1
  unfolding put
  put-Addressed no_fault content files h =
      place-Addressed no_fault content files (files (key_of sum256 content)) h
  put-Addressed (create_fault e) content files h = h
  put-Addressed (copy_fault e) content files h = h
  put-Addressed (close_fault e) content files h = h
  put-Addressed (mkdir_fault e) content files h = h
  put-Addressed (stat_fault e) content files h = h
  put-Addressed (rename_fault e) content files h =
      place-Addressed (rename_fault e) content files (files (key_of sum256 content)) h

  pub found_lem :
      (content : List ℕ) (files : Files) (o : Option (List ℕ))
      → files (key_of sum256 content) ≡ o
      → (other : List ℕ) × ((place sum256 no_fault content files o).1 (key_of sum256 content)
          ≡ some other)
  found_lem content files none e = (
    content,
    ap (λ b. if b then some content else files (key_of sum256 content))
        (eq_self (key_of sum256 content)),
  )
  found_lem content files (some old) e = (old, e)

  pub place_done :
      (content : List ℕ) (files : Files) (o : Option (List ℕ))
      → (place sum256 no_fault content files o).0 ≡ ok (stored sum256 content)
  place_done content files none = refl
  place_done content files (some old) = refl

  pub get_lem :
      (key : String) (files : Files) (content : List ℕ)
      → files key ≡ some content
      → get none key files ≡ ok content
  unfolding get
  get_lem key files content e = ground arith

  -- After a `Put` in which no step fails, `Get` of the key that it gave finds a file, and the content of
  -- that file has the key too: it is the content that was put, or one with the same hash in its place.
  pub get-put :
      (content : List ℕ) (files : Files)
      → Addressed files
      → (s : Stored) × ((other : List ℕ) × (((put sum256 no_fault content files).0 ≡ ok s)
            × ((get none s.key (put sum256 no_fault content files).1 ≡ ok other)
                × (s.key ≡ key_of sum256 other))))
  unfolding put
  get-put content files h =
      let key = key_of sum256 content in
      let (other, found) = found_lem content files (files key) refl in
      (
        stored sum256 content,
        (
          other,
          (
            place_done content files (files key),
            (
              get_lem key (put sum256 no_fault content files).1 other found,
              put-Addressed no_fault content files h key other found,
            ),
          ),
        ),
      )

  -- Where `Stat` fails for another reason than that there is no file, `Put` of new content reports
  -- success, and `Get` of the key that it gave does not find the content.
  pub put_stat_fault :
      (e : Error) (content : List ℕ) (files : Files)
      → files (key_of sum256 content) ≡ none
      → (s : Stored) × (((put sum256 (stat_fault e) content files).0 ≡ ok s)
          × (get none s.key (put sum256 (stat_fault e) content files).1
              ≡ err (plain ("content not found: " ++ s.key))))
  unfolding put get
  put_stat_fault e content files new = (stored sum256 content, (refl, ground arith))
