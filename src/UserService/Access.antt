-- ===== src/UserService/Access.antt =====
-- What Can of user_service.go answers.
use lfs_server_go.Prelude.{
  ◌≡◌, refl, sym, ap, ◌∙◌, inl, inr, Bool, true, false, Option, none, some, [], Bool-cases,
  if◌then◌else◌,
}
use lfs_server_go.Text.{Bytes}
use lfs_server_go.Errors.{Error, err}
use lfs_server_go.Panics.{◌>>◌}
use lfs_server_go.UserService.{
  Web, IsWeb, fresh, body_of, access_of, UserService, UserAccessResponse, no_response,
  new_downloader, get_page, vet_action, service_url, new_user_service, filled_by, get_response, can,
}

-- Without a response the answer is what it was before the request.
can_unreachable :
    (web : Web) (us : UserService) (r : UserAccessResponse) (e : Error)
    → IsWeb web
    → us.user_access_response ≡ some r
    → r.filled ≡ false
    → us.downloader.response ≡ none
    → web.http_get us.downloader.url ≡ err e
    → (can web us).0 ≡ some r.access
unfolding can get_response get_page filled_by
can_unreachable web us r e lawful here empty silent fails =
    let still : (get_page web us.downloader).1.response ≡ none =
      rw (silent, get_page) (rw (fails, get_page) silent) in
    let (x, kept) = lawful.decode_empty (some (record r { raw_response = [] })) in
    rw (here, can)
      (rw (empty, can)
        (rw (here, get_response) (rw (still, get_response) (rw (kept, filled_by) refl))))

-- A new service whose page cannot be had allows nothing, whatever the action is.
pub can-new_user_service :
    (web : Web) (base username project action : Bytes) (e : Error)
    → IsWeb web
    → web.http_get (service_url base username project action) ≡ err e
    → (can web (new_user_service base username project action)).0 ≡ some false
unfolding new_user_service new_downloader
can-new_user_service web base username project action e lawful fails =
    elim (Bool-cases (vet_action (fresh base username project action))) [
      | inl listed ↦
          rw (listed, new_user_service)
            (can_unreachable web _ no_response e lawful refl refl refl fails)
      | inr other ↦
          rw (other, new_user_service) (can_unreachable web _ _ e lawful refl refl refl fails)
    ]

filled_by_done :
    (us us' : UserService) (x : Option Error × Option UserAccessResponse)
    → ◌≡◌ {A = Option (Option Error) × UserService} (filled_by us x) (some none, us')
    → (r : UserAccessResponse) × (us'.user_access_response ≡ some r) × (r.filled ≡ true)
unfolding filled_by
filled_by_done us us' (some e, decoded) h = cc
filled_by_done us us' (none, none) h = cc
filled_by_done us us' (none, some r) h =
    (record r { filled = true }, sym (ap (λ x. x.1.user_access_response) h), refl)

can_filled :
    (web : Web) (us : UserService) (r : UserAccessResponse)
    → us.user_access_response ≡ some r
    → r.filled ≡ true
    → can web us ≡ (some r.access, us)
unfolding can
can_filled web us r there full =
    ap
      (λ (o : Option UserAccessResponse). elim o as (λ _. Option Bool × UserService) [
        | none ↦ (none, us)
        | some x ↦ if x.filled then (some x.access, us) else (get_response web >> access_of) us
      ])
      there
    ∙ ap (λ (b : Bool). if b then (some r.access, us) else (get_response web >> access_of) us) full

access_of_filled :
    (us : UserService) (r : UserAccessResponse)
    → us.user_access_response ≡ some r
    → access_of us ≡ (some r.access, us)
access_of_filled us r there =
    ap
      (λ (o : Option UserAccessResponse). elim o as (λ _. Option Bool × UserService) [
        | none ↦ (none, us)
        | some x ↦ (some x.access, us)
      ])
      there

can_empty :
    (web : Web) (us us' : UserService) (r : UserAccessResponse)
    → us.user_access_response ≡ some r
    → r.filled ≡ false
    → get_response web us ≡ (some none, us')
    → can web us ≡ access_of us'
unfolding can
can_empty web us us' r here empty read = rw (here, can) (rw (empty, can) (rw (read, can) refl))

-- Where the response was read without an error, Can answers its access and asks for nothing more: the
-- same call again gives the same answer and leaves all as it is.
pub can-can :
    (web : Web) (us us' : UserService) (r : UserAccessResponse)
    → us.user_access_response ≡ some r
    → r.filled ≡ false
    → get_response web us ≡ (some none, us')
    → (can web us ≡ can web us') × ((can web us').1 ≡ us')
unfolding get_response
can-can web us us' r here empty read =
    let d = (get_page web us.downloader).1 in
    let body = body_of d.response in
    let decoded = web.decode body (some (record r { raw_response = body })) in
    let (r', there, full) =
      filled_by_done (record us { downloader = d }) us' decoded (rw (here, get_response) at read) in
    let again = can_filled web us' r' there full in
    (
      can_empty web us us' r here empty read ∙ access_of_filled us' r' there ∙ sym again,
      ap (λ x. x.1) again,
    )
