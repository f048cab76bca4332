-- ===== src/Ldap/Laws.antt =====
-- Whom authenticateLdap of meta_store_auth.go lets in.
use lfs_server_go.Prelude.{
  ◌≡◌, ◌≢◌, ◌⊎◌, ap, ◌∙◌, ◌↔◌, inl, inr, true, none, List, [], ◌∷◌, ◌++◌, arith, Bool-cases,
  Option-cases, List-cases,
}
use lfs_server_go.Text.{Bytes, lit}
use lfs_server_go.Errors.{ok, err, ◌>>=◌, no_ldap_search_results, ldap_user_not_found}
use lfs_server_go.Config.{LdapConfig}
use lfs_server_go.MetaStore.Transactions.{Result-cases}
use lfs_server_go.Ldap.{
  SearchRequest, Directory, has_bind_dn, ldap_search, ldap_bind, find_user_dn, authenticate_ldap,
}

module _ {Conn : Type 0} (server : Directory Conn) (cfg : LdapConfig) where
  -- The search that `findUserDn` makes.
  abbrev pub request_of : Bytes → SearchRequest
  request_of user = record {
    base_dn = cfg.base;
    filter =
        lit "(&(objectclass="
        ++ (cfg.user_object_class
            ++ (lit ")(" ++ (cfg.user_cn ++ (lit "=" ++ (user ++ lit "))")))));
    scope = 1;
    attributes = lit "dn" ∷ [];
  }

  -- The directory answers twice, finds the user by the filter on the class and the name, takes the
  -- account of the settings, if they name one or a password for it, and takes the password, on the
  -- second connection, for the first entry found.
  pub record Accepts (user password : Bytes) : Type 0 where
    pub conn : Conn
    pub conn2 : Conn
    pub dn : Bytes
    pub others : List Bytes
    pub connects : server.search_connect ≡ ok conn
    pub connects_again : server.bind_connect ≡ ok conn2
    pub finds : server.search conn (request_of user) ≡ ok (dn ∷ others)
    pub account :
        (cfg.bind_dn ≢ []) ⊎ (cfg.bind_pass ≢ [])
        → server.bind conn cfg.bind_dn cfg.bind_pass ≡ none
    pub password_taken : server.bind conn2 dn password ≡ none

  has_bind_dn-named : has_bind_dn server cfg ≡ true → (cfg.bind_dn ≢ []) ⊎ (cfg.bind_pass ≢ [])
  has_bind_dn-named h = elim (List-cases cfg.bind_dn) [
    | inr (c, s, some_dn) ↦ inl (λ e. absurd (cc))
    | inl no_dn ↦ elim (List-cases cfg.bind_pass) [
      | inr (c, s, some_pass) ↦ inr (λ e. absurd (cc))
      | inl no_pass ↦ absurd (ground arith)
    ]
  ]

  named-has_bind_dn : (cfg.bind_dn ≢ []) ⊎ (cfg.bind_pass ≢ []) → has_bind_dn server cfg ≡ true
  named-has_bind_dn (inl named) = elim (List-cases cfg.bind_dn) [
    | inl no_dn ↦ absurd (named no_dn)
    | inr (c, s, some_dn) ↦ ground arith
  ]
  named-has_bind_dn (inr named) = elim (List-cases cfg.bind_pass) [
    | inl no_pass ↦ absurd (named no_pass)
    | inr (c, s, some_pass) ↦ ground arith
  ]

  authenticate_ldap_complete :
      (user password : Bytes)
      → Accepts user password
      → authenticate_ldap server cfg user password ≡ true
  unfolding authenticate_ldap find_user_dn ldap_search ldap_bind
  authenticate_ldap_complete user password a = elim (Bool-cases (has_bind_dn server cfg)) [
    | inl named ↦
        let taken = a.account (has_bind_dn-named named) in
        ground (arith, a.connects, a.connects_again, a.finds, a.password_taken)
    | inr anonymous ↦ ground (arith, a.connects, a.connects_again, a.finds, a.password_taken)
  ]

  first_of :
      (entries : List Bytes) (dn : Bytes)
      → (do
        found ← (elim entries [
          | [] ↦ err no_ldap_search_results
          | first ∷ rest ↦ ok (first ∷ rest)
        ])
        elim found [ [] ↦ err ldap_user_not_found | first ∷ rest ↦ ok first ])
        ≡ ok dn
      → (others : List Bytes) × (entries ≡ dn ∷ others)
  first_of [] dn h = absurd (ground arith)
  first_of (first ∷ rest) dn h =
      let same : first ≡ dn = ground arith in (rest, ap (λ x. x ∷ rest) same)

  find_user_dn-ok :
      (user dn : Bytes)
      → find_user_dn server cfg user ≡ ok dn
      → (conn : Conn) × (others : List Bytes) × (server.search_connect ≡ ok conn)
        × (server.search conn (request_of user) ≡ ok (dn ∷ others))
        × ((cfg.bind_dn ≢ []) ⊎ (cfg.bind_pass ≢ [])
            → server.bind conn cfg.bind_dn cfg.bind_pass ≡ none)
  unfolding find_user_dn ldap_search
  find_user_dn-ok user dn h = elim (Result-cases server.search_connect) [
    | inr (e, down) ↦ absurd (ground arith)
    | inl (conn, up) ↦ elim (Result-cases (server.search conn (request_of user))) [
      | inr (e, failed) ↦ absurd (ground arith)
      | inl (entries, found) ↦ elim (Bool-cases (has_bind_dn server cfg)) [
        | inl named ↦ elim (Option-cases (server.bind conn cfg.bind_dn cfg.bind_pass)) [
          | inr (e, wrong) ↦ absurd (ground arith)
          | inl taken ↦
              let (others, listed) = first_of entries dn (ground arith) in
              (conn, others, up, found ∙ ap ok listed, λ n. taken)
        ]
        | inr anonymous ↦
            let (others, listed) = first_of entries dn (ground arith) in
            (
              conn,
              others,
              up,
              found ∙ ap ok listed,
              λ n. absurd (ground (arith, named-has_bind_dn n)),
            )
      ]
    ]
  ]

  authenticate_ldap_sound :
      (user password : Bytes)
      → authenticate_ldap server cfg user password ≡ true
      → Accepts user password
  unfolding authenticate_ldap ldap_bind
  authenticate_ldap_sound user password h = elim (Result-cases (find_user_dn server cfg user)) [
    | inr (e, unknown) ↦ absurd (ground arith)
    | inl (dn, known) ↦ elim (Result-cases server.bind_connect) [
      | inr (e, down) ↦ absurd (ground arith)
      | inl (conn2, up) ↦ elim (Option-cases (server.bind conn2 dn password)) [
        | inr (e, wrong) ↦ absurd (ground arith)
        | inl taken ↦
            let (conn, others, connects, finds, account) = find_user_dn-ok user dn known in
            record {
              conn = conn;
              conn2 = conn2;
              dn = dn;
              others = others;
              connects = connects;
              connects_again = up;
              finds = finds;
              account = account;
              password_taken = taken;
            }
      ]
    ]
  ]

  -- `authenticateLdap` accepts a user and a password exactly when a connection is made, the search
  -- under the base for entries of the user class and of the user's name finds some, the directory
  -- takes the account of the settings (where they have its name or its password), a second
  -- connection is made, and the directory takes the password for the first entry there. This is where
  -- `NewLdapConnection` returns, both times.
  pub authenticate_ldap_iff :
      (user password : Bytes)
      → (authenticate_ldap server cfg user password ≡ true) ↔ Accepts user password
  authenticate_ldap_iff user password =
      (authenticate_ldap_sound user password, authenticate_ldap_complete user password)
