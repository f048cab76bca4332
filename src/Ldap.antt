-- ===== src/Ldap.antt =====
-- meta_store_auth.go: authentication against an LDAP server. The connection and the server are
-- those of github.com/nmcclain/ldap, a parameter.
pub mod Laws
pub mod Connection
use lfs_server_go.Prelude.{
  ℕ, ◌+◌, Bool, true, false, Option, none, some, List, [], ◌∷◌, ◌++◌, length, ltb, if◌then◌else◌,
}
use lfs_server_go.Text.{Bytes, lit}
use lfs_server_go.Errors.{
  Error, Result, ok, err, ◌>>=◌, no_ldap_search_results, ldap_user_not_found,
}
use lfs_server_go.Config.{LdapConfig}

-- The fields of an `ldap.SearchRequest` that the program sets.
pub record SearchRequest : Type 0 where
  pub base_dn : Bytes
  pub filter : Bytes
  pub scope : ℕ
  pub attributes : List Bytes

-- The LDAP library and the server behind it, at the time of one request.
pub record Directory (Conn : Type 0) : Type 0 where
  -- what `NewLdapConnection` returns where `LdapSearch` calls it, and where `LdapBind` does
  pub search_connect : Result Conn
  pub bind_connect : Result Conn
  -- `Conn.Search`: the names of the entries that match
  pub search : Conn → SearchRequest → Result (List Bytes)
  -- `Conn.Bind`; `none` is success
  pub bind : Conn → Bytes → Bytes → Option Error

module _ {Conn : Type 0} (server : Directory Conn) (cfg : LdapConfig) where
  -- Whether `BindDn` and `BindPass` together have a character.
  abbrev pub has_bind_dn : Bool
  has_bind_dn = ltb 0 (length cfg.bind_dn + length cfg.bind_pass)

  unfoldable pub ldap_search : SearchRequest → Result (List Bytes)
  ldap_search request = do
    conn ← server.search_connect
    entries ← server.search conn request
    bound ←
        (if has_bind_dn
          then elim (server.bind conn cfg.bind_dn cfg.bind_pass) [ none ↦ ok tt | some e ↦ err e ]
          else ok (tt {0}))
    elim entries [ [] ↦ err no_ldap_search_results | dn ∷ others ↦ ok (dn ∷ others) ]

  unfoldable pub ldap_bind : Bytes → Bytes → Bool
  ldap_bind user password = elim server.bind_connect [
    | err e ↦ false
    | ok conn ↦ elim (server.bind conn user password) [ none ↦ true | some e ↦ false ]
  ]

  abbrev pub user_filter : Bytes → Bytes
  user_filter user =
      lit "(&(objectclass="
      ++ (cfg.user_object_class ++ (lit ")(" ++ (cfg.user_cn ++ (lit "=" ++ (user ++ lit "))")))))

  unfoldable pub find_user_dn : Bytes → Result Bytes
  unfolding ldap_search
  find_user_dn user = do
    entries ← ldap_search (record {
      base_dn = cfg.base;
      filter = user_filter user;
      scope = 1;
      attributes = lit "dn" ∷ [];
    })
    elim entries [ [] ↦ err ldap_user_not_found | dn ∷ others ↦ ok dn ]

  unfoldable pub authenticate_ldap : Bytes → Bytes → Bool
  unfolding find_user_dn ldap_bind
  authenticate_ldap user password = elim (find_user_dn user) [
    | err e ↦ false
    | ok dn ↦ ldap_bind dn password
  ]
