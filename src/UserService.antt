-- ===== src/UserService.antt =====
-- user_service.go and downloader.go: the client of the service that tells whether a user may do an
-- action on a project. The packages net/http and encoding/json are parameters.
pub mod Access
use lfs_server_go.Prelude.{
  Bool, true, false, not, ◌||◌, Option, none, some, List, [], ◌∷◌, ◌++◌, if◌then◌else◌,
}
use lfs_server_go.Text.{Bytes, lit, one_of}
use lfs_server_go.Errors.{Error, Result, ok, err}
use lfs_server_go.Panics.{Action, pure, panic, ◌>>=◌, ◌>>◌}

pub record UserAccessResponse : Type 0 where
  pub access : Bool
  pub status : Bytes
  pub message : Bytes
  pub raw_response : Bytes
  pub filled : Bool

-- `Auth` is never set. No response is `none`.
pub record Downloader : Type 0 where
  pub url : Bytes
  pub response : Option Bytes
  pub status : Bytes

-- The pointer to the response is `none` where it is nil.
pub record UserService : Type 0 where
  pub downloader : Downloader
  pub username : Bytes
  pub project : Bytes
  pub action : Bytes
  pub user_access_response : Option UserAccessResponse

-- `http.Get` of a URL with the body as far as it could be read: the status and the body. `Decode` of
-- a text into the pointer: its error and the pointer then, which the text `null` makes nil.
pub record Web : Type 0 where
  pub http_get : Bytes → Result (Bytes × Bytes)
  pub decode : Bytes → Option UserAccessResponse → Option Error × Option UserAccessResponse

-- What the package json does to a text that is empty: an error, and nothing is set.
pub record IsWeb (web : Web) : Type 0 where
  pub decode_empty :
      (r : Option UserAccessResponse)
      → (e : Error) × Path (Option Error × Option UserAccessResponse) (web.decode [] r) (some e, r)

unfoldable pub new_downloader : Bytes → Downloader
new_downloader url = record { url = url; response = none; status = [] }

unfoldable pub get_page : Web → Downloader → Option Error × Downloader
get_page web d = elim d.response [
  | some body ↦ (none, d)
  | none ↦ elim (web.http_get d.url) [
    | err e ↦ (some e, d)
    | ok page ↦ (none, record d { status = page.0; response = some page.1 })
  ]
]

abbrev pub allowed_actions : List Bytes
allowed_actions = lit "download" ∷ lit "push" ∷ lit "force_push" ∷ lit "admin" ∷ []

unfoldable pub vet_action : UserService → Bool
vet_action us = one_of allowed_actions us.action

unfoldable pub service_url : (base username project action : Bytes) → Bytes
service_url base username project action =
    base
    ++ (lit "?username="
        ++ (username ++ (lit "&project=" ++ (project ++ (lit "&action=" ++ action)))))

abbrev pub no_response : UserAccessResponse
no_response = record {
  access = false;
  status = [];
  message = [];
  raw_response = [];
  filled = false;
}

abbrev pub fresh : (base username project action : Bytes) → UserService
fresh base username project action = record {
  downloader = new_downloader (service_url base username project action);
  username = username;
  project = project;
  action = action;
  user_access_response = some no_response;
}

unfoldable pub new_user_service : (base username project action : Bytes) → UserService
unfolding new_downloader vet_action service_url
new_user_service base username project action =
    let us = fresh base username project action in
    if vet_action us then us else record us {
      user_access_response =
          some (record no_response { message = action ++ lit " is not in AllowedActions" });
    }

-- The bytes of a response; those of none are none.
abbrev pub body_of : Option Bytes → Bytes
body_of none = []
body_of (some body) = body

-- The end of `GetResponse`, after Decode.
unfoldable pub filled_by :
    UserService → Option Error × Option UserAccessResponse → Option (Option Error) × UserService
filled_by us (some e, decoded) = (some (some e), record us { user_access_response = decoded })
filled_by us (none, none) = (none, record us { user_access_response = none })
filled_by us (none, some r) =
    (some none, record us { user_access_response = some (record r { filled = true }) })

unfoldable pub get_response : Web → Action UserService (Option Error)
unfolding get_page filled_by
get_response web us =
    let d = (get_page web us.downloader).1 in
    let body = body_of d.response in
    elim us.user_access_response [
      | none ↦ (none, record us { downloader = d })
      | some r ↦
          filled_by (record us { downloader = d })
            (web.decode body (some (record r { raw_response = body })))
    ]

-- `us.UserAccessResponse.Access`, which panics on nil.
abbrev pub access_of : Action UserService Bool
access_of us = elim us.user_access_response [ none ↦ (none, us) | some r ↦ (some r.access, us) ]

unfoldable pub can : Web → Action UserService Bool
unfolding get_response
can web us = elim us.user_access_response [
  | none ↦ (none, us)
  | some r ↦ if r.filled then (some r.access, us) else (get_response web >> access_of) us
]
