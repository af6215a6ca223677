-- ===== src/Storage.antt =====
-- internal/storage/storage.go: the local store, which names files by the hash of what they hold.
-- `sum256` is SHA-256. The directory is a map from keys to contents.
pub mod Laws
pub mod Kept
use Prim.Native.String.{◌++◌, len, slice}
use tinydm.Prelude.{
  ℕ, String, Bool, true, false, Option, none, some, List, length, if◌then◌else◌, ◌==◌,
}
use tinydm.Sql.{Error, Result, ok, err, plain, wrap}
use tinydm.Auth.Token.{encode_to_string}

abbrev pub Files : Type 0
Files = String → Option (List ℕ)

-- What the operating system does in a `Put`: the step that fails, with its error, if one does.
pub data PutFault : Type 0 where
  no_fault : PutFault
  create_fault : Error → PutFault
  copy_fault : Error → PutFault
  close_fault : Error → PutFault
  mkdir_fault : Error → PutFault
  stat_fault : Error → PutFault
  rename_fault : Error → PutFault

pub record Stored : Type 0 where
  pub key : String
  pub size : ℕ
  pub checksum : String

abbrev with_file : String → List ℕ → Files → Files
with_file key content files k = if k == key then some content else files k

module _ (sum256 : List ℕ → List ℕ) where
  abbrev pub hex_of : List ℕ → String
  hex_of content = encode_to_string (sum256 content)

  -- hex[:2] + "/" + hex[2:]
  abbrev pub key_of : List ℕ → String
  key_of content = let hex = hex_of content in slice hex 0 2 ++ ("/" ++ slice hex 2 (len hex))

  abbrev stored : List ℕ → Stored
  stored content = record { key = key_of content; size = length content; checksum = hex_of content }

  -- The end of `Put`, by the file that has the name: the new one is moved there where none has, and
  -- dropped where one has, or where `Stat` fails for another reason.
  abbrev place : PutFault → List ℕ → Files → Option (List ℕ) → Result Stored × Files
  place (stat_fault e) content files o = (ok (stored content), files)
  place (rename_fault e) content files none = (err (wrap "move content file" e), files)
  place fault content files none = (ok (stored content), with_file (key_of content) content files)
  place fault content files (some old) = (ok (stored content), files)

  -- `Local.Put`
  unfoldable pub put : PutFault → List ℕ → Files → Result Stored × Files
  put (create_fault e) content files = (err (wrap "create temp file" e), files)
  put (copy_fault e) content files = (err (wrap "write content" e), files)
  put (close_fault e) content files = (err (wrap "close temp file" e), files)
  put (mkdir_fault e) content files = (err (wrap "create content dir" e), files)
  put (stat_fault e) content files = place (stat_fault e) content files (files (key_of content))
  put (rename_fault e) content files = place (rename_fault e) content files (files (key_of content))
  put no_fault content files = place no_fault content files (files (key_of content))

-- `Local.Get`; `fault` is an error of `Open` other than that the file is not there.
unfoldable pub get : Option Error → String → Files → Result (List ℕ)
get (some e) key files = err (wrap "open content" e)
get none key files = elim (files key) [
  | none ↦ err (plain ("content not found: " ++ key))
  | some content ↦ ok content
]

-- `Local.Delete`
unfoldable pub delete : Option Error → String → Files → Result (Unit {0}) × Files
delete (some e) key files = (err (wrap "delete content" e), files)
delete none key files = (ok tt, λ k. if k == key then none else files k)
