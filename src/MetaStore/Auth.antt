-- ===== src/MetaStore/Auth.antt =====
-- What `authenticate` accepts: MetaStore.authenticate of meta_store.go, checkPass of common.go.
use lfs_server_go.Prelude.{
  All, suc, ◌≡◌, refl, ◌∙◌, sym, ap, ◌↔◌, ◌⊎◌, inl, inr, true, false, some, [], ◌∷◌, ◌++◌, length,
  take, drop, arith, Bool-cases, Option-cases, take-length-append,
}
use lfs_server_go.Text.{Bytes, ◌==◌, has_prefix, trim_prefix, index_byte}
use lfs_server_go.Text.Laws.{
  has_prefix-append, trim_prefix-append, append-trim_prefix, Lacks, index_byte-append,
  index_byte-split,
}
use lfs_server_go.Base64.{decode, encode}
use lfs_server_go.Base64.Laws.{IsByte, decode-encode}
use lfs_server_go.MetaStore.{Env, basic, credentials, authenticate, check_user}

-- The authorization is "Basic ", then base64 of the user, a colon and the password.
pub record Names (authorization user password : Bytes) : Type 0 where
  pub payload : Bytes
  pub header : authorization ≡ basic ++ payload
  pub decoded : decode payload ≡ some (user ++ b':' ∷ password)
  -- the user ends at the first colon
  pub no_colon : Lacks b':' user

pub credentials_complete :
    (authorization user password : Bytes)
    → Names authorization user password
    → credentials authorization ≡ some (user, password)
unfolding credentials
credentials_complete a user password n = rw n.header (
    rw (has_prefix-append, trim_prefix-append, n.decoded)
      (rw (index_byte-append b':' user password n.no_colon)
        (ground (arith, take-length-append user (b':' ∷ password), drop_next user password))))
  where
    drop_next : (s t : Bytes) → drop (suc (length s)) (s ++ b':' ∷ t) ≡ t
    drop_next [] t = refl
    drop_next (c ∷ s) t = drop_next s t

pub credentials_sound :
    (authorization user password : Bytes)
    → credentials authorization ≡ some (user, password)
    → Names authorization user password
unfolding credentials
credentials_sound a user password h = elim (Bool-cases (has_prefix a basic)) [
  | inr other ↦ absurd (ground arith)
  | inl ours ↦ elim (Option-cases (decode (trim_prefix a basic))) [
    | inl bad ↦ absurd (ground arith)
    | inr (cs, good) ↦ elim (Option-cases (index_byte cs b':')) [
      | inl bare ↦ absurd (ground arith)
      | inr (i, found) ↦
          let around = index_byte-split b':' cs i found in
          let ends : (take i cs ≡ user) × (drop (suc i) cs ≡ password) = ground arith in
          record {
            payload = trim_prefix a basic;
            header = sym (append-trim_prefix basic a ours);
            decoded = good ∙ ap some (sym (rw (ends.0, ends.1) at around.0));
            no_colon = rw ends.0 at around.1;
          }
    ]
  ]
]

-- The user and the password are read back from "Basic " and the base64 of the user, a colon and the
-- password, where these are bytes and the user has no colon.
pub credentials-encode :
    (user password : Bytes)
    → All IsByte (user ++ b':' ∷ password)
    → Lacks b':' user
    → credentials (basic ++ encode (user ++ b':' ∷ password)) ≡ some (user, password)
credentials-encode user password bytes no_colon =
    credentials_complete (basic ++ encode (user ++ b':' ∷ password)) user password (record {
      payload = encode (user ++ b':' ∷ password);
      header = refl;
      decoded = decode-encode (user ++ b':' ∷ password) bytes;
      no_colon = no_colon;
    })

named_not_blank :
    (authorization user password : Bytes)
    → Names authorization user password
    → (authorization == []) ≡ false
unfolding ◌==◌
named_not_blank a user password n = rw n.header refl

module _ {DB Conn : Type 0} (env : Env DB Conn) where
  -- The server is public, or the authorization names a user whose password the directory or the
  -- stored hash accepts.
  abbrev pub IsAdmitted : Bytes → DB → Type 0
  IsAdmitted authorization db =
      (env.cfg.public ≡ true)
      ⊎ ((user : Bytes) × (password : Bytes) × Names authorization user password
          × (check_user env user password db ≡ true))

  authenticate_sound : (a : Bytes) (db : DB) → authenticate env a db ≡ true → IsAdmitted a db
  unfolding authenticate
  authenticate_sound a db h = elim (Bool-cases env.cfg.public) [
    | inl open_to_all ↦ inl open_to_all
    | inr private ↦ elim (Option-cases (credentials a)) [
      | inl bad ↦ absurd (ground arith)
      | inr (named, good) ↦
          inr (named.0, named.1, credentials_sound a named.0 named.1 good, ground arith)
    ]
  ]

  pub authenticate_complete : (a : Bytes) (db : DB) → IsAdmitted a db → authenticate env a db ≡ true
  unfolding authenticate
  authenticate_complete a db (inl open_to_all) = ground arith
  authenticate_complete a db (inr (user, password, n, accepted)) =
      ground (arith, credentials_complete a user password n, named_not_blank a user password n)

  -- A request passes `authenticate` exactly when the server is public, or the authorization is
  -- "Basic " and the base64 of a user without a colon, a colon and a password which the directory
  -- (with LDAP on) or the stored hash (without) accepts.
  pub authenticate_iff :
      (authorization : Bytes) (db : DB)
      → (authenticate env authorization db ≡ true) ↔ IsAdmitted authorization db
  authenticate_iff a db = (authenticate_sound a db, authenticate_complete a db)
