-- ===== src/Mgmt/Admin.antt =====
-- Who the management pages of mgmt.go serve, and what adding a user does in the bolt store.
use lfs_server_go.Prelude.{
  ◌≡◌, refl, ap, ◌∙◌, ◌≢◌, ◌⊎◌, inl, inr, false, ◌||◌, not, Option, none, some, [], arith,
  if◌then◌else◌, Bool-cases, Option-cases,
}
use lfs_server_go.Text.{Bytes, ◌==◌}
use lfs_server_go.Text.Laws.{eq_iff, eq_refl}
use lfs_server_go.MetaStore.Transactions.{test_of_ne, ne_of_test}
use lfs_server_go.Server.{
  App, Request, ResponseWriter, fresh, code_of, reply_code, write_status, set_header, write_header,
  write,
}
use lfs_server_go.Mgmt.{Web, Handler, denied, basic_auth, ask_admin}

module _ {M C : Type 0} (app : App M C) (web : Web) where
  open app use {cfg, status_text}

  -- An administrator is set, and the request carries the administrator's name and password.
  pub record IsAdmin (r : Request) : Type 0 where
    pub user_set : cfg.admin_user ≢ []
    pub pass_set : cfg.admin_pass ≢ []
    pub named : web.basic_auth r ≡ some (cfg.admin_user, cfg.admin_pass)

  admin-denied : (r : Request) (w : ResponseWriter) → IsAdmin r → denied app web r w ≡ none
  unfolding denied
  admin-denied r w a = rw (test_of_ne cfg.admin_user a.user_set) (
      rw (test_of_ne cfg.admin_pass a.pass_set)
        (rw (a.named, denied) (rw (eq_refl cfg.admin_user) (rw (eq_refl cfg.admin_pass) refl))))

  pub basic_auth-admin :
      (h : Handler app web) (r : Request) (w : ResponseWriter) (m : M)
      → IsAdmin r
      → basic_auth app web h r w m ≡ h r w m
  unfolding basic_auth
  basic_auth-admin h r w m a = rw (admin-denied r w a, basic_auth) refl

  -- A page that is not shown: 401 or 404, and no change.
  abbrev pub IsRefused : M → Option ResponseWriter × M → Type 0
  IsRefused m r = (r.1 ≡ m) × ((reply_code r.0 ≡ some 401) ⊎ (reply_code r.0 ≡ some 404))

  asked : (r : Request) → code_of (ask_admin app web r fresh) ≡ 401
  unfolding ask_admin write_status set_header write_header write
  asked r = refl

  not_found : (r : Request) → code_of (write_status status_text r 404 fresh) ≡ 404
  unfolding write_status write_header write
  not_found r = refl

  -- Only the administrator passes.
  pub denied-cases :
      (r : Request)
      → (IsAdmin r × (denied app web r fresh ≡ none))
        ⊎ ((IsAdmin r → ⊥)
            × ((answer : ResponseWriter) × (denied app web r fresh ≡ some answer)
                × ((code_of answer ≡ 401) ⊎ (code_of answer ≡ 404))))
  unfolding denied
  denied-cases r = elim (Bool-cases (cfg.admin_user == [])) [
    | inl blank ↦ inr (
      λ a. a.user_set ((eq_iff cfg.admin_user []).0 blank),
      (missing, rw (blank, denied) refl, inr (not_found r)),
    )
    | inr u ↦ elim (Bool-cases (cfg.admin_pass == [])) [
      | inl blank ↦ inr (
        λ a. a.pass_set ((eq_iff cfg.admin_pass []).0 blank),
        (missing, rw u (rw (blank, denied) refl), inr (not_found r)),
      )
      | inr p ↦ elim (Option-cases (web.basic_auth r)) [
        | inl bare ↦ inr (
          λ a. absurd (ground (arith, a.named)),
          (ask_admin app web r fresh, rw u (rw p (rw (bare, denied) refl)), inl (asked r)),
        )
        | inr ((user, pass), given) ↦
            rw u (rw p (rw (given, denied) (named_cases user pass given u p)))
      ]
    ]
  ]
    where
      missing : ResponseWriter
      missing = write_status status_text r 404 fresh

      named_cases :
          (user pass : Bytes)
          → web.basic_auth r ≡ some (user, pass)
          → (cfg.admin_user == []) ≡ false
          → (cfg.admin_pass == []) ≡ false
          → let result : Option ResponseWriter =
              if not (user == cfg.admin_user) || not (pass == cfg.admin_pass)
              then some (ask_admin app web r fresh)
              else none in
            (IsAdmin r × (result ≡ none))
            ⊎ ((IsAdmin r → ⊥)
                × ((answer : ResponseWriter) × (result ≡ some answer)
                    × ((code_of answer ≡ 401) ⊎ (code_of answer ≡ 404))))
      named_cases user pass given u p = elim (Bool-cases (user == cfg.admin_user)) [
        | inr other ↦ inr (
          λ a. absurd (ground (arith, a.named, eq_refl cfg.admin_user)),
          (ask_admin app web r fresh, rw other refl, inl (asked r)),
        )
        | inl same_user ↦ elim (Bool-cases (pass == cfg.admin_pass)) [
          | inr other ↦ inr (
            λ a. absurd (ground (arith, a.named, eq_refl cfg.admin_pass)),
            (ask_admin app web r fresh, rw same_user (rw other refl), inl (asked r)),
          )
          | inl same_pass ↦ inl (
            record {
              user_set = ne_of_test cfg.admin_user u;
              pass_set = ne_of_test cfg.admin_pass p;
              named =
                  given ∙ ground (arith, eq_iff user cfg.admin_user, eq_iff pass cfg.admin_pass);
            },
            rw same_user (rw same_pass refl),
          )
        ]
      ]

  -- A management page, whichever it is, runs its handler exactly for the administrator; everybody
  -- else gets 401 or 404, and the metadata stays as it is.
  pub basic_auth-cases :
      (h : Handler app web) (r : Request) (m : M)
      → (IsAdmin r × (basic_auth app web h r fresh m ≡ h r fresh m))
        ⊎ ((IsAdmin r → ⊥) × IsRefused m (basic_auth app web h r fresh m))
  unfolding basic_auth
  basic_auth-cases h r m = elim (denied-cases r) [
    | inl (admin, passes) ↦ inl (admin, rw (passes, basic_auth) refl)
    | inr (other, (answer, stops, code)) ↦ inr (
      other,
      rw (stops, basic_auth)
          (refl, elim code [ inl c ↦ inl (ap some c) | inr c ↦ inr (ap some c) ]),
    )
  ]
