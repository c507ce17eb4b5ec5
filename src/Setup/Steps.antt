-- ===== src/Setup/Steps.antt =====
-- How the body of `try` in _run_setup_on_app runs, call by call, until one raises.
use freedom_box.Base.{
  ◌≡◌, ◌≢◌, ap, Bool, Bool-cases, inl, inr, Option, Option-cases, none, some, nat_eq, arith, String,
}
use freedom_box.Effect.{◌>>◌}
use freedom_box.Operation.Defs.{AppInfo}
use freedom_box.Setup.Apps.{Methods, Service}
use freedom_box.Setup.Upgrade.{attempt_upgrade_for_app}
use freedom_box.Setup.Run.{setup_app}

module _ {S : Type 0} (service : Service S) (app : Methods S) where
  open service use {setup_version, set_setup_version, post_setup, refresh_package_lists}

  -- A new app is ready for its setup at once; any other after the package lists were refreshed and its
  -- upgrade was tried.
  pub data Prepared (s : S) : S → Type 0 where
    new_app : setup_version app.app_id s ≡ 0 → Prepared s s
    upgraded :
        {t u : S} {done : Bool}
        → setup_version app.app_id s ≢ 0
        → refresh_package_lists s ≡ (some tt, t)
        → attempt_upgrade_for_app service app.app_id t ≡ (some done, u)
        → Prepared s u

  -- The calls from a state: which one raises, with the state that it leaves; or all of them return, the
  -- last one `set_setup_version`, and the hook after it has run.
  pub data SetupRun (s : S) : Option (Unit {0}) → S → Type 0 where
    refresh_raised :
        {t : S}
        → setup_version app.app_id s ≢ 0
        → refresh_package_lists s ≡ (none, t)
        → SetupRun s none t
    upgrade_raised :
        {t u : S}
        → setup_version app.app_id s ≢ 0
        → refresh_package_lists s ≡ (some tt, t)
        → attempt_upgrade_for_app service app.app_id t ≡ (none, u)
        → SetupRun s none u
    setup_raised :
        {t u : S}
        → Prepared s t
        → app.setup (setup_version app.app_id s) t ≡ (none, u)
        → SetupRun s none u
    store_raised :
        {t u w : S}
        → Prepared s t
        → app.setup (setup_version app.app_id s) t ≡ (some tt, u)
        → set_setup_version app.app_id app.version u ≡ (none, w)
        → SetupRun s none w
    all_returned :
        {t u w : S}
        → Prepared s t
        → app.setup (setup_version app.app_id s) t ≡ (some tt, u)
        → set_setup_version app.app_id app.version u ≡ (some tt, w)
        → SetupRun s (some tt) (post_setup app.app_id w)

with_state : {A S : Type 0} (r : Option A × S) (o : Option A) → r.0 ≡ o → r ≡ (o, r.1)
with_state r o e = ap (λ z. (z, r.1)) e

module _ {S : Type 0} (service : Service S) (app_info : String → AppInfo) (app : Methods S) where
  open service use {setup_version, set_setup_version, post_setup, refresh_package_lists}

  -- The calls after the upgrade
  rest-SetupRun :
      (s t : S)
      → Prepared service app s t
      → let r =
          (app.setup (setup_version app.app_id s)
              >> (set_setup_version app.app_id app.version >> λ u.
                  (some tt, post_setup app.app_id u)))
            t in
        SetupRun service app s r.0 r.1
  rest-SetupRun s t ready =
      let call = app.setup (setup_version app.app_id s) t in
      let stored = set_setup_version app.app_id app.version call.1 in
      elim (Option-cases call.0) [
        | inl raised ↦ rw raised (setup_raised ready (with_state call none raised))
        | inr (_, returned) ↦ elim (Option-cases stored.0) [
          | inl raised ↦
              rw (returned, raised)
                (store_raised ready (with_state call (some tt) returned)
                  (with_state stored none raised))
          | inr (_, done) ↦
              rw (returned, done)
                (all_returned ready (with_state call (some tt) returned)
                  (with_state stored (some tt) done))
        ]
      ]

  pub setup_app-SetupRun :
      (s : S)
      → let r = setup_app service app_info app (setup_version app.app_id s) s in
        SetupRun service app s r.0 r.1
  setup_app-SetupRun s = elim (Bool-cases (nat_eq (setup_version app.app_id s) 0)) [
    | inl new ↦ rw new (rest-SetupRun s s (new_app (ground (arith, new))))
    | inr old ↦
        let there : setup_version app.app_id s ≢ 0 = λ e. absurd (ground (arith, old)) in
        let call = refresh_package_lists s in
        let tried = attempt_upgrade_for_app service app.app_id call.1 in
        rw old (elim (Option-cases call.0) [
          | inl raised ↦ rw raised (refresh_raised there (with_state call none raised))
          | inr (_, returned) ↦ elim (Option-cases tried.0) [
            | inl raised ↦
                rw (returned, raised)
                  (upgrade_raised there (with_state call (some tt) returned)
                    (with_state tried none raised))
            | inr (done, ended) ↦
                rw (returned, ended)
                  (rest-SetupRun s tried.1 (
                    upgraded there (with_state call (some tt) returned)
                      (with_state tried (some done) ended)))
          ]
        ])
  ]
