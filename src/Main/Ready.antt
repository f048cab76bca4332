-- ===== src/Main/Ready.antt =====
-- When main of main.go comes to serve requests, and with what.
use lfs_server_go.Prelude.{
  ◌≡◌, ◌≢◌, refl, ap, ◌∙◌, ◌↔◌, inl, inr, false, some, List, [], ◌∷◌, arith, Bool-cases,
  Option-cases,
}
use mathlib.Core.Path.{subst}
use lfs_server_go.Text.{Bytes, lit, ◌==◌}
use lfs_server_go.Text.Laws.{eq_refl, eq_iff}
use lfs_server_go.Errors.{Result, ok}
use lfs_server_go.Config.{Configuration}
use lfs_server_go.MetaStore.Transactions.{Result-cases}
use lfs_server_go.TrackingListener.{Net, new_tracking_listener}
use lfs_server_go.Main.Listening.{
  IsListening, IsListening-new_tracking_listener, new_tracking_listener-IsListening, IsChosen,
  IsChosen-choose_listener, choose_listener-IsChosen,
}
use lfs_server_go.Main.{Tls, Listener, Running, serving, choose_listener, is_version, start}

is_version-false :
    (args : List Bytes) (name : Bytes) → is_version args ≡ false → args ≢ name ∷ lit "-v" ∷ []
unfolding is_version
is_version-false args name h e =
    let flag : is_version (name ∷ lit "-v" ∷ []) ≡ false = subst (λ l. is_version l ≡ false) e h in
    absurd (ground (arith, flag, eq_refl (lit "-v")))

runs-is_version :
    (args : List Bytes) → ((name : Bytes) → args ≢ name ∷ lit "-v" ∷ []) → is_version args ≡ false
unfolding is_version
runs-is_version [] h = refl
runs-is_version (name ∷ []) h = refl
runs-is_version (name ∷ flag ∷ []) h = elim (Bool-cases (flag == lit "-v")) [
  | inl version ↦
      absurd (h name (ap (λ (f : Bytes). name ∷ f ∷ []) ((eq_iff flag (lit "-v")).0 version)))
  | inr other ↦ other
]
runs-is_version (name ∷ flag ∷ more ∷ args) h = refl

module _ {L Cert M C : Type 0} (net : Net L) (lib : Tls L Cert) where
  abbrev made : Listener L Cert → M → C → Running L Cert M C
  made l m c = record { listener = l; meta_store = m; content_store = c }

  -- All that main asks for before it serves is there.
  pub record IsReady (args : List Bytes) (cfg : Configuration) (meta : Result M)
      (content : Result C) (r : Running L Cert M C) : Type 0 where
    pub runs : (name : Bytes) → args ≢ name ∷ lit "-v" ∷ []
    pub below : L
    pub listens : IsListening net cfg.listen below
    pub chosen : IsChosen lib cfg below r.listener
    pub meta_opens : meta ≡ ok r.meta_store
    pub content_opens : content ≡ ok r.content_store

  IsReady-serving :
      (args : List Bytes) (cfg : Configuration) (meta : Result M) (content : Result C)
      (r : Running L Cert M C)
      → IsReady args cfg meta content r
      → start args net lib cfg meta content ≡ serving r
  unfolding start
  IsReady-serving args cfg meta content r h =
      rw (runs-is_version args h.runs, start)
        (rw (IsListening-new_tracking_listener net cfg.listen h.below h.listens, start)
          (rw (IsChosen-choose_listener lib cfg h.below r.listener h.chosen, start)
            (rw (h.meta_opens, start) (rw (h.content_opens, start) refl))))

  serving-IsReady :
      (args : List Bytes) (cfg : Configuration) (meta : Result M) (content : Result C)
      (r : Running L Cert M C)
      → start args net lib cfg meta content ≡ serving r
      → IsReady args cfg meta content r
  unfolding start
  serving-IsReady args cfg meta content r h = elim (Bool-cases (is_version args)) [
    | inl alone ↦ absurd (ground arith)
    | inr runs ↦ elim (Result-cases (new_tracking_listener net cfg.listen)) [
      | inr (e, failed) ↦ absurd (ground arith)
      | inl (l, listens) ↦ elim (Option-cases (choose_listener lib cfg l)) [
        | inl panics ↦ absurd (ground arith)
        | inr (x, chosen) ↦ elim (Result-cases x) [
          | inr (e, failed) ↦ absurd (ground arith)
          | inl (listener, got) ↦ elim (Result-cases meta) [
            | inr (e, failed) ↦ absurd (ground arith)
            | inl (m, opened) ↦ elim (Result-cases content) [
              | inr (e, failed) ↦ absurd (ground arith)
              | inl (c, kept) ↦
                  let same : made listener m c ≡ r = ground arith in
                  record {
                    runs = λ name. is_version-false args name runs;
                    below = l;
                    listens = new_tracking_listener-IsListening net cfg.listen l listens;
                    chosen = choose_listener-IsChosen lib cfg l r.listener (
                        chosen
                        ∙ ap some (got ∙ ap (λ (x : Running L Cert M C). ok x.listener) same));
                    meta_opens = opened ∙ ap (λ (x : Running L Cert M C). ok x.meta_store) same;
                    content_opens = kept ∙ ap (λ (x : Running L Cert M C). ok x.content_store) same;
                  }
            ]
          ]
        ]
      ]
    ]
  ]

  -- The program serves requests exactly where its arguments are not its name and "-v" alone, the
  -- file descriptor (scheme "fd") or the TCP address (schemes "tcp", "tcp4" and "tcp6") that the
  -- settings name gives a listener, and both stores open; it serves with these stores, over TLS
  -- with the key pair of the settings where the scheme has "https" in it and a certificate and a key
  -- are named (they must load, and the listener must be one of TCP), and plainly where not.
  pub start_iff :
      (args : List Bytes) (cfg : Configuration) (meta : Result M) (content : Result C)
      (r : Running L Cert M C)
      → (start args net lib cfg meta content ≡ serving r) ↔ IsReady args cfg meta content r
  start_iff args cfg meta content r =
      (serving-IsReady args cfg meta content r, IsReady-serving args cfg meta content r)
