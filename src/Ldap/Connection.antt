-- ===== src/Ldap/Connection.antt =====
-- NewLdapConnection of meta_store_auth.go: the address that the settings name, and
-- authenticateLdap with the two connections that are made so. The library
-- github.com/nmcclain/ldap is a parameter.
use lfs_server_go.Prelude.{
  ℕ, zero, suc, ◌+◌, ◌-◌, ◌*◌, ◌/◌, ◌%◌, ◌&&◌, Bool, Option, none, some, List, [], ◌∷◌, ◌++◌, drop,
  ltb, if◌then◌else◌,
}
use lfs_server_go.Text.{Bytes, lit, ◌==◌, contains, before, index_byte}
use lfs_server_go.Errors.{Error, Result, ok, err}
use lfs_server_go.Types.{ℤ, pos, negsuc}
use lfs_server_go.Config.{LdapConfig}
use lfs_server_go.Ldap.{SearchRequest, Directory, authenticate_ldap}

-- `url.Parse`: the host and the whole URL as a string; `ldap.DialTLS` and `ldap.Dial` of an
-- address, at the call of this number.
pub record Dialer (Conn : Type 0) : Type 0 where
  pub parse : Bytes → Result (Bytes × Bytes)
  pub dial_tls : ℕ → Bytes → Result Conn
  pub dial : ℕ → Bytes → Result Conn

-- The value of decimal digits behind those read so far.
unfoldable pub digits : ℕ → Bytes → Option ℕ
digits n [] = some n
digits n (c ∷ s) =
    let rest = digits (n * 10 + (c - 48)) s in if ltb 47 c && ltb c 58 then rest else none

-- The parts of `strconv.Atoi`, where `int` has 64 bits; `none` is an error.
unfoldable pub unsigned : Bytes → Option ℕ
unfolding digits
unsigned [] = none
unsigned (c ∷ s) = digits 0 (c ∷ s)

unfoldable pub positive : Bytes → Option ℤ
unfolding unsigned
positive s = elim (unsigned s) [
  | none ↦ none
  | some n ↦ if ltb n 9223372036854775808 then some (pos n) else none
]

unfoldable pub negative : Bytes → Option ℤ
unfolding unsigned
negative s = elim (unsigned s) [
  | none ↦ none
  | some n ↦ elim n [
    | zero ↦ some (pos 0)
    | suc m ↦ if ltb m 9223372036854775808 then some (negsuc m) else none
  ]
]

-- `strconv.Atoi`
unfoldable pub atoi : Bytes → Option ℤ
unfolding positive negative
atoi [] = none
atoi (c ∷ s) =
    if c ∷ [] == lit "-"
    then negative s
    else if c ∷ [] == lit "+"
    then positive s
    else positive (c ∷ s)

-- `uint16` of an integer.
unfoldable pub to_uint16 : ℤ → ℕ
to_uint16 (pos n) = n % 65536
to_uint16 (negsuc n) = 65535 - n % 65536

-- The decimal digits of a number that has at most as many as the first argument says.
unfoldable pub decimal : ℕ → ℕ → Bytes
decimal zero n = []
decimal (suc k) n =
    let rest = decimal k (n / 10) in if ltb n 10 then (48 + n) ∷ [] else rest ++ (48 + n % 10) ∷ []

-- The part of `strings.Split(host, ":")` behind the first, if there is one.
unfoldable pub second : Bytes → Option Bytes
second host = elim (index_byte host b':') [
  | none ↦ none
  | some i ↦ some (before (drop (suc i) host) b':')
]

-- The closure `port`; `none` is its panic.
unfoldable pub port : Bytes → Option ℕ
unfolding second atoi to_uint16
port host = elim (second host) [
  | none ↦ some 389
  | some text ↦ elim (atoi text) [ none ↦ none | some n ↦ some (to_uint16 n) ]
]

-- The call of this number. A URL that does not parse is nil, and its use panics (`none`).
unfoldable pub new_ldap_connection :
    {Conn : Type 0} → Dialer Conn → ℕ → LdapConfig → Option (Result Conn)
unfolding port decimal
new_ldap_connection dialer call cfg = elim (dialer.parse cfg.server) [
  | err e ↦ none
  | ok (host, url) ↦ elim (port host) [
    | none ↦ none
    | some n ↦
        let address = before host b':' ++ (lit ":" ++ decimal 5 n) in
        some (
          if contains url (lit "ldaps")
          then dialer.dial_tls call address
          else dialer.dial call address)
  ]
]

-- `Conn.Search` and `Conn.Bind` of the library, as in `Directory`.
pub record Connected (Conn : Type 0) : Type 0 where
  pub search : Conn → SearchRequest → Result (List Bytes)
  pub bind : Conn → Bytes → Bytes → Option Error

-- The directory as `LdapSearch` and `LdapBind` meet it: each makes its connection. It is `none` where
-- `NewLdapConnection` panics, which the settings alone decide.
unfoldable pub directory_of :
    {Conn : Type 0} → Dialer Conn → Connected Conn → LdapConfig → Option (Directory Conn)
unfolding new_ldap_connection
directory_of dialer lib cfg = elim (new_ldap_connection dialer 0 cfg) [
  | none ↦ none
  | some search_connect ↦ elim (new_ldap_connection dialer 1 cfg) [
    | none ↦ none
    | some bind_connect ↦ some (record {
      search_connect = search_connect;
      bind_connect = bind_connect;
      search = lib.search;
      bind = lib.bind;
    })
  ]
]

-- `authenticateLdap` with its connections; `none` is the panic.
unfoldable pub authenticate_ldap_over :
    {Conn : Type 0} → Dialer Conn → Connected Conn → LdapConfig → Bytes → Bytes → Option Bool
unfolding directory_of authenticate_ldap
authenticate_ldap_over dialer lib cfg user password = elim (directory_of dialer lib cfg) [
  | none ↦ none
  | some server ↦ some (authenticate_ldap server cfg user password)
]
