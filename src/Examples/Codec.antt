-- ===== src/Examples/Codec.antt =====
-- A concrete encoding of the two records of the metadata store, with what `IsGob` asks of one.
use lfs_server_go.Prelude.{
  ℕ, zero, suc, ◌≡◌, refl, ap, ◌∙◌, Bool, true, false, Option, none, List, [], ◌∷◌, ◌++◌, arith,
  length, take, drop, take-length-append, drop-length-append,
}
use lfs_server_go.Text.{Bytes, lit}
use lfs_server_go.Errors.{Result, ok, err, foreign}
use lfs_server_go.Types.{ℤ, pos, negsuc, MetaObject, MetaProject}
use lfs_server_go.Bolt.{Gob, IsGob}

unfoldable pub put_text : Bytes → Bytes → Bytes
put_text s rest = length s ∷ s ++ rest

unfoldable pub put_texts : List Bytes → Bytes
unfolding put_text
put_texts [] = []
put_texts (s ∷ ss) = put_text s (put_texts ss)

get_texts : ℕ → Bytes → List Bytes
get_texts zero rest = []
get_texts (suc k) [] = []
get_texts (suc k) (n ∷ rest) = take n rest ∷ get_texts k (drop n rest)

get_texts-put_texts : (ss : List Bytes) → get_texts (length ss) (put_texts ss) ≡ ss
unfolding get_texts put_texts
get_texts-put_texts [] = refl
get_texts-put_texts (s ∷ ss) =
    rw (take-length-append, drop-length-append) (ap (λ l. s ∷ l) (get_texts-put_texts ss))

unfoldable pub flag : Bool → ℕ
flag true = 1
flag false = 0

to_bool : ℕ → Bool
to_bool zero = false
to_bool (suc n) = true

unfoldable pub sign : ℤ → ℕ
sign (pos n) = 0
sign (negsuc n) = 1

unfoldable pub size_of : ℤ → ℕ
size_of (pos n) = n
size_of (negsuc n) = n

to_int : ℕ → ℕ → ℤ
to_int zero n = pos n
to_int (suc k) n = negsuc n

bad : Bytes
bad = lit "gob: bad data"

unfoldable pub encode_object : MetaObject → Bytes × Option lfs_server_go.Errors.Error
unfolding put_texts flag sign size_of
encode_object m = (
  flag m.existing
      ∷ sign m.size
      ∷ size_of m.size
      ∷ suc (length m.project_names)
      ∷ put_texts (m.oid ∷ m.project_names),
  none,
)

object_of : Bool → ℤ → List Bytes → Result MetaObject
unfolding bad
object_of e n [] = err (foreign bad)
object_of e n (oid ∷ names) =
    ok (record { oid = oid; size = n; project_names = names; existing = e })

decode_object : Bytes → Result MetaObject
unfolding object_of get_texts to_bool to_int
decode_object (e ∷ s ∷ n ∷ k ∷ rest) = object_of (to_bool e) (to_int s n) (get_texts k rest)
decode_object _ = err (foreign bad)

unfoldable pub encode_project : MetaProject → Bytes × Option lfs_server_go.Errors.Error
unfolding put_texts
encode_project p = (suc (length p.oids) ∷ put_texts (p.name ∷ p.oids), none)

project_of : List Bytes → Result MetaProject
unfolding bad
project_of [] = err (foreign bad)
project_of (name ∷ oids) = ok (record { name = name; oids = oids })

decode_project : Bytes → Result MetaProject
unfolding project_of get_texts
decode_project [] = err (foreign bad)
decode_project (k ∷ rest) = project_of (get_texts k rest)

to_bool-flag : (b : Bool) → to_bool (flag b) ≡ b
unfolding to_bool flag
to_bool-flag true = refl
to_bool-flag false = refl

to_int-sign : (n : ℤ) → to_int (sign n) (size_of n) ≡ n
unfolding to_int sign size_of
to_int-sign (pos n) = refl
to_int-sign (negsuc n) = refl

decode-encode_object : (m : MetaObject) → decode_object (encode_object m).0 ≡ ok m
unfolding decode_object encode_object
decode-encode_object m =
    ap (object_of (to_bool (flag m.existing)) (to_int (sign m.size) (size_of m.size)))
      (get_texts-put_texts (m.oid ∷ m.project_names))
    ∙ cc (to_bool-flag m.existing, to_int-sign m.size)

decode-encode_project : (p : MetaProject) → decode_project (encode_project p).0 ≡ ok p
unfolding decode_project encode_project
decode-encode_project p = ap project_of (get_texts-put_texts (p.name ∷ p.oids))

unfoldable pub codec : Gob
unfolding encode_object decode_object encode_project decode_project
codec = record {
  encode_object = encode_object;
  decode_object = decode_object;
  encode_project = encode_project;
  decode_project = decode_project;
}

pub codec-IsGob : IsGob codec
unfolding codec
codec-IsGob = record {
  object_encodes = λ m. refl;
  object_decodes = decode-encode_object;
  object_bytes = λ m h. ground arith;
  project_encodes = λ p. refl;
  project_decodes = decode-encode_project;
  project_bytes = λ p h. ground arith;
}
