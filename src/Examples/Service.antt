-- ===== src/Examples/Service.antt =====
-- The theorem on user_service.go at a service that cannot be reached.
use lfs_server_go.Prelude.{◌≡◌, refl, true, false, Option, none, some, [], ◌∷◌}
use lfs_server_go.Text.{Bytes, lit}
use lfs_server_go.Errors.{Error, err, foreign}
use lfs_server_go.UserService.{Web, IsWeb, UserAccessResponse, can, new_user_service}
use lfs_server_go.UserService.Access.{can-new_user_service}

-- Every text is read as a permission, save the one that is empty.
unfoldable decode : Bytes → Option UserAccessResponse → Option Error × Option UserAccessResponse
decode [] r = (some (foreign (lit "EOF")), r)
decode (c ∷ s) r = (
  none,
  some (record { access = true; status = []; message = []; raw_response = c ∷ s; filled = false }),
)

abbrev unreachable : Error
unreachable = foreign (lit "connection refused")

unfoldable offline : Web
unfolding decode
offline = record { http_get = λ url. err unreachable; decode = decode }

offline-IsWeb : IsWeb offline
unfolding offline decode
offline-IsWeb = record { decode_empty = λ r. (foreign (lit "EOF"), refl) }

can-new_user_service_example :
    (can offline (new_user_service (lit "http://users") (lit "u") (lit "repo") (lit "push"))).0
    ≡ some false
unfolding offline
can-new_user_service_example =
    can-new_user_service offline (lit "http://users") (lit "u") (lit "repo") (lit "push")
      unreachable offline-IsWeb refl
