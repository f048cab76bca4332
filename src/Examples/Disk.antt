-- ===== src/Examples/Disk.antt =====
-- The theorems on content_store.go at a disk that is empty and refuses nothing.
use lfs_server_go.Prelude.{ℕ, ◌≡◌, refl, ◌∙◌, ◌≢◌, inr, false, none, some, [], arith}
use lfs_server_go.Text.{Bytes, lit, ◌==◌}
use lfs_server_go.Text.Laws.{eq_refl}
use lfs_server_go.Errors.{hash_mismatch}
use lfs_server_go.Types.{pos, MetaObject}
use lfs_server_go.Hex.{encode_to_string, hex_digit}
use lfs_server_go.FilePath.{slash}
use lfs_server_go.ContentStore.{Storage, Files, Reader, path_of, sha_str, put}
use lfs_server_go.ContentStore.Integrity.{IsStored}
use lfs_server_go.ContentStore.Uploads.{IsWorking, IsReadable, put-IsStored, put-err, put-verdict}
use lfs_server_go.ContentStore.Intact.{IsOid, IsIntact, put-IsIntact}

-- A disk without faults, and a hash that is the content itself.
abbrev pub disk : Storage
disk = record {
  store = record { base_path = lit "lfs-content" };
  faults = record {
    mkdir_all = λ p. none;
    open_read = λ p. none;
    open_write = λ p. none;
    write = λ p content. none;
    read = λ p content. none;
    rename = λ p q. none;
    remove = λ p. none;
    stat = λ p. none;
  };
  is_directory = λ fs p. false;
  sum256 = λ content. content;
}

abbrev pub no_files : Files
no_files p = none

-- The object "abc", under the oid that is its hash.
abbrev pub abc : MetaObject
abc = record { oid = lit "616263"; size = pos 3; project_names = []; existing = false }

abbrev pub upload : Reader
upload = record { content = lit "abc"; failure = none }

-- An upload of as many bytes that are others.
abbrev pub other_upload : Reader
other_upload = record { content = lit "abd"; failure = none }

pub upload-IsWorking : IsWorking disk abc (lit "abc") no_files
upload-IsWorking = record {
  directory = refl;
  opens = refl;
  writes = refl;
  renames = refl;
  unused = refl;
}

pub upload-IsReadable : (fs : Files) (oid content : Bytes) → IsReadable disk oid content fs
upload-IsReadable fs oid content = record { opens = refl; file = refl; reads = refl }

pub upload-hash : sha_str disk (lit "abc") ≡ lit "616263"
unfolding sha_str encode_to_string hex_digit
upload-hash = refl

other-hash : sha_str disk (lit "abd") ≡ lit "616264"
unfolding sha_str encode_to_string hex_digit
other-hash = refl

pub differ : (lit "616264" == lit "616263") ≡ false
unfolding ◌==◌
differ = refl

pub accepted : (put disk abc upload no_files).0 ≡ none
accepted =
    put-verdict disk abc upload no_files upload-IsWorking refl
    ∙ rw upload-hash (rw (eq_refl (lit "616263")) refl)

refused : (put disk abc other_upload no_files).0 ≡ some hash_mismatch
refused =
    put-verdict disk abc other_upload no_files
      (record { directory = refl; opens = refl; writes = refl; renames = refl; unused = refl }) refl
    ∙ rw other-hash (rw differ refl)

put-IsStored_example : IsStored disk abc upload no_files (put disk abc upload no_files).1
put-IsStored_example = put-IsStored disk abc upload no_files accepted

put-err_example : (put disk abc other_upload no_files).1 (path_of disk abc.oid) ≡ none
put-err_example =
    put-err disk abc other_upload no_files hash_mismatch (path_of disk abc.oid) refused (inr refl)

abbrev pub Kept : ℕ → Type 0
Kept c = (c ≢ slash) × (c ≢ b'.')

pub six-Kept : Kept b'6'
six-Kept = (λ e. ground arith, λ e. ground arith)

pub one-Kept : Kept b'1'
one-Kept = (λ e. ground arith, λ e. ground arith)

pub two-Kept : Kept b'2'
two-Kept = (λ e. ground arith, λ e. ground arith)

three-Kept : Kept b'3'
three-Kept = (λ e. ground arith, λ e. ground arith)

pub abc-IsOid : IsOid abc.oid
abc-IsOid = (
  λ e. ground arith,
  (six-Kept, (one-Kept, (six-Kept, (two-Kept, (six-Kept, (three-Kept, tt)))))),
)

put-IsIntact_example : IsIntact disk (put disk abc upload no_files).1
put-IsIntact_example =
    put-IsIntact disk abc upload no_files abc-IsOid (λ oid content h there. absurd (ground arith))
