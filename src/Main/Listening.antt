-- ===== src/Main/Listening.antt =====
-- The listener of main of main.go: NewTrackingListener, and wrapHttps where TLS is wanted.
use lfs_server_go.Prelude.{
  ◌≡◌, ◌≢◌, ap, ◌∙◌, ◌⊎◌, inl, inr, true, false, some, [], arith, Bool-cases,
}
use mathlib.Core.Path.{subst}
use lfs_server_go.Text.{Bytes, lit, ◌==◌, contains}
use lfs_server_go.Text.Laws.{eq_iff}
use lfs_server_go.Errors.{ok}
use lfs_server_go.Config.{Configuration, is_https, use_tls}
use lfs_server_go.MetaStore.Transactions.{Result-cases}
use lfs_server_go.TrackingListener.{Net, new_tracking_listener}
use lfs_server_go.Main.{Tls, Listener, tracked, tls, wrap_https, choose_listener}

module _ {L : Type 0} (net : Net L) (addr : Bytes) where
  -- The listener of an address: of the file descriptor that a URL of the scheme "fd" names, or of
  -- the TCP address that one of the schemes of TCP names.
  pub data IsListening (l : L) : Type 0 where
    by_fd :
        (host : Bytes)
        → net.parse addr ≡ ok (lit "fd", host)
        → net.listen_fd host ≡ ok l
        → IsListening l
    by_tcp :
        (scheme host : Bytes)
        → (scheme ≡ lit "tcp") ⊎ ((scheme ≡ lit "tcp4") ⊎ (scheme ≡ lit "tcp6"))
        → net.parse addr ≡ ok (scheme, host)
        → net.listen_tcp scheme host ≡ ok l
        → IsListening l

  pub IsListening-new_tracking_listener :
      (l : L) → IsListening l → new_tracking_listener net addr ≡ ok l
  unfolding new_tracking_listener ◌==◌
  IsListening-new_tracking_listener l (by_fd host named opened) = ground arith
  IsListening-new_tracking_listener l (by_tcp scheme host (inl e) named opened) =
      ground (arith, opened)
  IsListening-new_tracking_listener l (by_tcp scheme host (inr (inl e)) named opened) = ground arith
  IsListening-new_tracking_listener l (by_tcp scheme host (inr (inr e)) named opened) = ground arith

  pub new_tracking_listener-IsListening :
      (l : L) → new_tracking_listener net addr ≡ ok l → IsListening l
  unfolding new_tracking_listener
  new_tracking_listener-IsListening l h = elim (Result-cases (net.parse addr)) [
    | inr (e, bad) ↦ absurd (ground arith)
    | inl ((scheme, host), named) ↦ elim (Bool-cases (scheme == lit "fd")) [
      | inl fd ↦
          let same = (eq_iff scheme (lit "fd")).0 fd in
          by_fd host (named ∙ ap (λ x. ok (x, host)) same) (ground arith)
      | inr other ↦ elim (Bool-cases (scheme == lit "tcp")) [
        | inl tcp ↦
            by_tcp scheme host (inl ((eq_iff scheme (lit "tcp")).0 tcp)) named (ground arith)
        | inr no_tcp ↦ elim (Bool-cases (scheme == lit "tcp4")) [
          | inl tcp4 ↦
              by_tcp scheme host (inr (inl ((eq_iff scheme (lit "tcp4")).0 tcp4))) named
                (ground arith)
          | inr no_tcp4 ↦ elim (Bool-cases (scheme == lit "tcp6")) [
            | inl tcp6 ↦
                by_tcp scheme host (inr (inr ((eq_iff scheme (lit "tcp6")).0 tcp6))) named
                  (ground arith)
            | inr no_tcp6 ↦ absurd (ground arith)
          ]
        ]
      ]
    ]
  ]

module _ {L Cert : Type 0} (lib : Tls L Cert) (cfg : Configuration) (l : L) where
  -- The listener that main serves on, over the one below: TLS with the key pair of the settings
  -- where the scheme has "https" in it and the settings name a certificate and a key, and the one
  -- below where not.
  pub data IsChosen : Listener L Cert → Type 0 where
    plain :
        (contains cfg.scheme (lit "https") ≡ false) ⊎ ((cfg.cert ≡ []) ⊎ (cfg.key ≡ []))
        → IsChosen (tracked l)
    over_tls :
        (pair : Cert)
        → contains cfg.scheme (lit "https") ≡ true
        → cfg.cert ≢ []
        → cfg.key ≢ []
        → lib.load_key_pair cfg.cert cfg.key ≡ ok pair
        → lib.is_tcp l ≡ true
        → IsChosen (tls pair l)

  no_tls : (cfg.cert ≡ []) ⊎ (cfg.key ≡ []) → use_tls cfg ≡ false
  unfolding use_tls
  no_tls (inl e) = ground (arith, (eq_iff cfg.cert []).1 e)
  no_tls (inr e) = ground (arith, (eq_iff cfg.key []).1 e)

  pub IsChosen-choose_listener :
      (x : Listener L Cert) → IsChosen x → choose_listener lib cfg l ≡ some (ok x)
  unfolding choose_listener wrap_https is_https use_tls
  IsChosen-choose_listener x (plain (inl http)) = ground arith
  IsChosen-choose_listener x (plain (inr without)) = ground (arith, no_tls without)
  IsChosen-choose_listener x (over_tls pair https cert key loads tcp) =
      ground (arith, eq_iff cfg.cert [], eq_iff cfg.key [])

  pub choose_listener-IsChosen :
      (x : Listener L Cert) → choose_listener lib cfg l ≡ some (ok x) → IsChosen x
  unfolding choose_listener wrap_https is_https use_tls
  choose_listener-IsChosen x h = elim (Bool-cases (contains cfg.scheme (lit "https"))) [
    | inr http ↦ let same : tracked l ≡ x = ground arith in subst IsChosen same (plain (inl http))
    | inl https ↦ elim (Bool-cases (cfg.cert == [])) [
      | inl no_cert ↦
          let same : tracked l ≡ x = ground arith in
          subst IsChosen same (plain (inr (inl ((eq_iff cfg.cert []).0 no_cert))))
      | inr cert ↦ elim (Bool-cases (cfg.key == [])) [
        | inl no_key ↦
            let same : tracked l ≡ x = ground arith in
            subst IsChosen same (plain (inr (inr ((eq_iff cfg.key []).0 no_key))))
        | inr key ↦ elim (Result-cases (lib.load_key_pair cfg.cert cfg.key)) [
          | inr (e, failed) ↦ absurd (ground arith)
          | inl (pair, loads) ↦ elim (Bool-cases (lib.is_tcp l)) [
            | inr other ↦ absurd (ground arith)
            | inl tcp ↦
                let same : tls pair l ≡ x = ground arith in
                subst IsChosen same (
                  over_tls pair https (λ e. absurd (ground (arith, eq_iff cfg.cert [])))
                    (λ e. absurd (ground (arith, eq_iff cfg.key []))) loads tcp)
          ]
        ]
      ]
    ]
  ]
