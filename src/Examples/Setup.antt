-- ===== src/Examples/Setup.antt =====
-- A server in memory: its settings, its hashing, and databases with a user and with an object.
use lfs_server_go.Prelude.{
  ◌≡◌, refl, true, false, Option, none, some, List, [], ◌∷◌, arith, inr, if◌then◌else◌,
}
use lfs_server_go.Text.{Bytes, lit, ◌==◌}
use lfs_server_go.Text.Laws.{eq_refl}
use lfs_server_go.Base64.{decode, quanta, without_breaks, digit}
use lfs_server_go.Errors.{Error, ok, err, foreign}
use lfs_server_go.Types.{pos, RequestVars}
use lfs_server_go.Config.Load.{default_configuration}
use lfs_server_go.Config.{Configuration}
use lfs_server_go.Ldap.{Directory}
use lfs_server_go.Bcrypt.{Hashing, IsHashing, check_pass}
use lfs_server_go.Bolt.{Bucket, users, objects, projects}
use lfs_server_go.MetaStore.{Env, authenticate, check_user, stored_hash}
use lfs_server_go.MetaStore.Auth.{Names, authenticate_complete}
use lfs_server_go.MetaStore.Invariant.{IsSound}
use lfs_server_go.Examples.Pairs.{lookup}
use lfs_server_go.Examples.Memory.{Memory, memory}
use lfs_server_go.Examples.Codec.{codec}

-- A hash that is the password behind a dollar sign.
compare : Bytes → Bytes → Option Error
compare hashed password =
    if hashed == b'$' ∷ password then none else some (foreign (lit "not the hash of the password"))

unfoldable pub plain_hashing : Hashing
unfolding compare
plain_hashing = record {
  generate_from_password = λ salt password cost. ok (b'$' ∷ password);
  compare_hash_and_password = compare;
}

pub plain_hashing-IsHashing : IsHashing plain_hashing
unfolding plain_hashing compare ◌==◌
plain_hashing-IsHashing = record {
  match_generated = λ salt password cost h e.
      let generated : b'$' ∷ password ≡ h = ground arith in
      rw (← generated) (rw (eq_refl password) refl);
  empty_refused = λ password. (foreign (lit "not the hash of the password"), refl);
}

-- No LDAP server answers.
abbrev pub no_directory : Directory Unit
no_directory = record {
  search_connect = err (foreign (lit "connection refused"));
  bind_connect = err (foreign (lit "connection refused"));
  search = λ c r. ok [];
  bind = λ c user password. none;
}

abbrev pub settings : Configuration
settings = record (default_configuration (pos 1)) {
  host = lit "lfs.example.com";
  admin_pass = lit "secret";
  public = false;
  content_store = lit "filestore";
}

abbrev pub server_env : Env Memory Unit
server_env = record {
  cfg = settings;
  bolt = memory;
  gob = codec;
  hashing = plain_hashing;
  ldap = no_directory;
}

-- A database of one user "u" with the password "p" and no objects.
unfoldable pub pairs_of_u : Bucket → List (Bytes × Bytes)
pairs_of_u users = (lit "u", lit "$p") ∷ []
pairs_of_u objects = []
pairs_of_u projects = []

unfoldable pub one_user : Memory
unfolding pairs_of_u
one_user = record { has = λ c. true; pairs = pairs_of_u }

pub one_user-IsSound : IsSound server_env one_user
unfolding one_user pairs_of_u memory lookup
one_user-IsSound = record {
  buckets = λ c. refl;
  object_at = λ k v h. absurd (ground arith);
  project_at = λ k v h. absurd (ground arith);
  has_project = λ k v repo m h d n named. absurd (ground arith);
}

-- "Basic dTpw" is the authorization of "u" with "p".
abbrev pub u_and_p : Bytes
u_and_p = lit "Basic dTpw"

pub u_and_p-Names : Names u_and_p (lit "u") (lit "p")
unfolding decode quanta without_breaks digit
u_and_p-Names = record {
  payload = lit "dTpw";
  header = refl;
  decoded = refl;
  no_colon = (λ q. ground arith, tt);
}

u-check_user : check_user server_env (lit "u") (lit "p") one_user ≡ true
unfolding check_user stored_hash check_pass plain_hashing compare one_user memory lookup pairs_of_u
    ◌==◌
u-check_user = refl

pub u-admitted : authenticate server_env u_and_p one_user ≡ true
u-admitted =
    authenticate_complete server_env u_and_p one_user
      (inr (lit "u", lit "p", u_and_p-Names, u-check_user))

-- A request for the oid "616263" in the repository "repo".
abbrev pub abc_oid : Bytes
abc_oid = lit "616263"

abbrev pub request_vars : RequestVars
request_vars = record {
  oid = abc_oid;
  size = pos 3;
  user = [];
  password = [];
  namespace = lit "team";
  repo = lit "repo";
  authorization = u_and_p;
}

-- A directory that knows "u", under the name "cn=u", with the password "p".
abbrev pub town : Directory Unit
town = record {
  search_connect = ok tt;
  bind_connect = ok tt;
  search = λ c r. ok (lit "cn=u" ∷ []);
  bind = λ c user password.
      if password == lit "p" then none else some (foreign (lit "invalid credentials"));
}
