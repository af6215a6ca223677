-- ===== src/Tests/Uploads.antt =====
-- Names of files, and content that is uploaded.
use tinydm.Prelude.{◌≡◌, refl, ◌⊎◌, true, none, some, [], ◌∷◌, arith, length, if◌then◌else◌, ◌==◌}
use tinydm.Sql.{ok}
use tinydm.Storage.{Files, no_fault, get}
use tinydm.Auth.Token.{encode_to_string}
use tinydm.Repo.Documents.Laws.{first_version}
use tinydm.Repo.Versions.Snapshot.{replaced, now_at}
use tinydm.Api.Users.{principal_id}
use tinydm.Api.Security.{sanitize_filename, slash}
use tinydm.Api.Security.Laws.{Safe, sanitize_filename-Safe}
use tinydm.Api.Documents.Upload.{Form, FormFile, Surroundings, update}
use tinydm.Api.Documents.Upload.Laws.{upload_document}
use tinydm.Api.Documents.Upload.Replace.{file_content, update_keeps_content}
use tinydm.Api.{json, one_document}
use tinydm.Tests.Meta.{no_decoders, reader}
use tinydm.Tests.Handlers.{inside, lock}
use tinydm.Tests.Documents.{found}
use tinydm.Sql.Table.{update_clashes}
use tinydm.Tests.{conn, bucket, document}

-- `..\x`
sanitize_filename-Safe_example :
    Safe (sanitize_filename (b'.' ∷ b'.' ∷ b'\\' ∷ b'x' ∷ []))
    ⊎ (sanitize_filename (b'.' ∷ b'.' ∷ b'\\' ∷ b'x' ∷ []) ≡ slash ∷ [])
sanitize_filename-Safe_example = sanitize_filename-Safe (b'.' ∷ b'.' ∷ b'\\' ∷ b'x' ∷ [])

abbrev file : FormFile
file = record {
  filename = b'n' ∷ [];
  reader = reader (104 ∷ 105 ∷ []);
  bytes = 104 ∷ 105 ∷ [];
  seek_before_put = true;
  seek_before_extract = true;
}

abbrev form : Form
form = record { name = []; file = some file }

abbrev surroundings : Surroundings
surroundings = record {
  sum256 = λ bytes. length bytes ∷ [];
  detect = λ bytes. "text/plain";
  decoders = no_decoders;
  fault = no_fault;
}

abbrev files : Files
files key = none

abbrev uploaded_document : tinydm.Schema.Document
uploaded_document =
    first_version (upload_document surroundings file "new" bucket [] (principal_id inside)) "now"

abbrev old_files : Files
old_files key = if key == "c/1" then some (9 ∷ []) else none

update_keeps_content_example :
    ((update surroundings lock "v2" (some form) inside (old_files, conn)).0
      ≡ json 200 (
          one_document (
            some (
              replaced
                (file_content surroundings form file (document "d" "a.txt"))
                (now_at conn 3)
                (document "d" "a.txt")))))
    × ((get none
            (replaced
              (file_content surroundings form file (document "d" "a.txt"))
              (now_at conn 3)
              (document "d" "a.txt")).storage_key
            (update surroundings lock "v2" (some form) inside (old_files, conn)).1.0
          ≡ ok (104 ∷ 105 ∷ []))
        × (get none "c/1" (update surroundings lock "v2" (some form) inside (old_files, conn)).1.0
            ≡ ok (9 ∷ [])))
unfolding encode_to_string update_clashes
update_keeps_content_example =
    update_keeps_content surroundings lock "v2" inside (document "d" "a.txt") form file old_files
      conn (9 ∷ []) (λ n. refl) refl refl refl refl refl found refl refl refl
      (λ other there. absurd (ground arith))
