-- ===== src/Setup/Outcomes.antt =====
-- What the setup of an app leaves in the database and in its operation.
use freedom_box.Base.{
  ℕ, ◌≡◌, refl, sym, Bool, true, false, Bool-cases, inl, inr, ◌⊎◌, Option, none, some, nat_eq,
  arith, String,
}
use freedom_box.Effect.{pure, ◌>>◌, ◌>>=◌}
use freedom_box.Operation.Defs.{AppInfo, report_on}
use freedom_box.Setup.Apps.{Methods, Service}
use freedom_box.Setup.Upgrade.{attempt_upgrade_for_app}
use freedom_box.Setup.Run.{
  Job, update, upgrade_first, setup_app, setup_error, end_setup, run_setup_on_app,
}
use freedom_box.Setup.Steps.{SetupRun, setup_app-SetupRun}
use freedom_box.Setup.Versions.{Keeps, Sets, Sets-after, Sets-before, Keeps-after}

module _ {S : Type 0} (service : Service S) (app_info : String → AppInfo) (app : Methods S) where
  open service use {setup_version, set_setup_version, post_setup, refresh_package_lists, exception}

  -- The database keeps the version of the app until it is set, also when a call raises.
  pub record IsStable : Type 0 where
    pub refresh : Keeps (setup_version app.app_id) refresh_package_lists
    pub upgrade : Keeps (setup_version app.app_id) (attempt_upgrade_for_app service app.app_id)
    pub setup : (old_version : ℕ) → Keeps (setup_version app.app_id) (app.setup old_version)
    pub disable : Keeps (setup_version app.app_id) app.disable
    pub uninstall : Keeps (setup_version app.app_id) app.uninstall
    pub post :
        (s : S) → setup_version app.app_id (post_setup app.app_id s) ≡ setup_version app.app_id s
    pub set : (v : ℕ) → Sets (setup_version app.app_id) v (set_setup_version app.app_id v)

  -- What the operation of the job says at the end, when the version was set to `v` and when not.
  unfoldable pub Succeeded : ℕ → Option String → Job S → Job S → Type 0
  Succeeded v message job job' =
      (setup_version app.app_id job'.system ≡ v)
      × (job'.operation.exception ≡ job.operation.exception)
      × (job'.operation.message ≡ message)

  unfoldable pub Failed : String → Job S → Job S → Type 0
  Failed message job job' =
      (setup_version app.app_id job'.system ≡ setup_version app.app_id job.system)
      × (job'.operation.exception ≡ some (exception job'.system))
      × (job'.operation.message ≡ some message)

  module _ (stable : IsStable) where
    upgrade_first-Keeps :
        (current : ℕ)
        → Keeps (setup_version app.app_id) (upgrade_first service app_info current app.app_id)
    upgrade_first-Keeps current s = elim (Bool-cases (nat_eq current 0)) [
      | inl new ↦ rw new refl
      | inr old ↦ rw old (
          Keeps-after (setup_version app.app_id) refresh_package_lists
            (λ _. attempt_upgrade_for_app service app.app_id >>= λ done. pure tt) stable.refresh
            (λ _.
              Keeps-after (setup_version app.app_id) (attempt_upgrade_for_app service app.app_id)
                (λ done. pure tt) stable.upgrade (λ done s'. refl))
            s)
    ]

    setup_app-Sets :
        (current : ℕ)
        → Sets (setup_version app.app_id) app.version (setup_app service app_info app current)
    setup_app-Sets current =
        let v = setup_version app.app_id in
        let set = set_setup_version app.app_id app.version in
        Sets-after v app.version (upgrade_first service app_info current app.app_id)
          (app.setup current >> (set >> λ s. (some tt, post_setup app.app_id s)))
          (upgrade_first-Keeps current)
          (Sets-after v app.version (app.setup current)
            (set >> λ s. (some tt, post_setup app.app_id s)) (stable.setup current)
            (Sets-before v app.version set (post_setup app.app_id) (stable.set app.version)
              stable.post))

  -- The message after a setup that succeeded
  abbrev pub setup_message : Bool → Bool → Option String → Option String
  setup_message true for_repair old = some "App installed."
  setup_message false true old = old
  setup_message false false old = some "App updated"

  end_setup-Succeeded :
      (new for_repair : Bool) (v : ℕ) (s : S) (job : Job S)
      → setup_version app.app_id s ≡ v
      → Succeeded v
          (setup_message new for_repair job.operation.message)
          job
          (end_setup service app_info new for_repair (some tt, s) job)
  unfolding update report_on Succeeded
  end_setup-Succeeded true for_repair v s job e = (e, refl, refl)
  end_setup-Succeeded false true v s job e = (e, refl, refl)
  end_setup-Succeeded false false v s job e = (e, refl, refl)

  end_setup-Failed :
      (new for_repair : Bool) (s : S) (job : Job S)
      → setup_version app.app_id s ≡ setup_version app.app_id job.system
      → Failed
          (setup_error service app_info new for_repair)
          job
          (end_setup service app_info new for_repair (none, s) job)
  unfolding update report_on Failed
  end_setup-Failed true for_repair s job e = (e, refl, refl)
  end_setup-Failed false true s job e = (e, refl, refl)
  end_setup-Failed false false s job e = (e, refl, refl)

  setup_outcome :
      (new for_repair : Bool) (r : Option (Unit {0}) × S) (job : Job S) (v : ℕ)
      → ((r.0 ≡ some tt) × (setup_version app.app_id r.1 ≡ v))
        ⊎ ((r.0 ≡ none) × (setup_version app.app_id r.1 ≡ setup_version app.app_id job.system))
      → ((r.0 ≡ some tt)
          × Succeeded v
              (setup_message new for_repair job.operation.message)
              job
              (end_setup service app_info new for_repair r job))
        ⊎ ((r.0 ≡ none)
            × Failed
                (setup_error service app_info new for_repair)
                job
                (end_setup service app_info new for_repair r job))
  setup_outcome new for_repair (some tt, s) job v (inl (returned, set)) =
      inl (returned, end_setup-Succeeded new for_repair v s job set)
  setup_outcome new for_repair (none, s) job v (inr (raised, same)) =
      inr (raised, end_setup-Failed new for_repair s job same)
  setup_outcome new for_repair (none, s) job v (inl (returned, set)) = absurd (ground arith)
  setup_outcome new for_repair (some tt, s) job v (inr (raised, same)) = absurd (ground arith)

-- What the message tells of a setup that raised, for a new app and for a repair
abbrev pub error_message : Bool → Bool → String
error_message true for_repair = "Error installing app: {exception}"
error_message false true = "Error repairing app: {exception}"
error_message false false = "Error updating app: {exception}"

setup_error_lem :
    {S : Type 0} (service : Service S) (app_info : String → AppInfo) (new for_repair : Bool)
    → setup_error service app_info new for_repair ≡ error_message new for_repair
setup_error_lem service app_info true for_repair = refl
setup_error_lem service app_info false true = refl
setup_error_lem service app_info false false = refl

end_setup-system :
    {S : Type 0} (service : Service S) (app_info : String → AppInfo) (new for_repair : Bool)
    (r : Option (Unit {0}) × S) (job : Job S)
    → (end_setup service app_info new for_repair r job).system ≡ r.1
unfolding update
end_setup-system service app_info new for_repair (none, s) job = refl
end_setup-system service app_info true for_repair (some tt, s) job = refl
end_setup-system service app_info false true (some tt, s) job = refl
end_setup-system service app_info false false (some tt, s) job = refl

-- The setup of an app in an operation, for an app whose calls leave its version in the database alone,
-- makes these calls in this order: for an app that is not new, the refresh of the package lists and the
-- try of an upgrade; then the app's setup with the version that was in the database, and the storing of
-- the version of the app. When all return, the hook after the setup has run, the database has the
-- version of the app, no exception is added to the operation, and its message tells of the installation
-- or the update (after a repair of an installed app, the message stays). When one raises, none after it
-- is made, the database has the version that it had, the operation has the exception, and its message
-- tells which of an installation, a repair and an update failed.
pub run_setup_on_app_lem :
    {S : Type 0} (service : Service S) (app_info : String → AppInfo) (app : Methods S)
    → IsStable service app_info app
    → (for_repair : Bool) (job : Job S)
    → let new = nat_eq (service.setup_version app.app_id job.system) 0 in
      let job' = run_setup_on_app service app_info app for_repair job in
      (SetupRun service app job.system (some tt) job'.system
        × Succeeded service app_info app app.version
            (setup_message service app_info app new for_repair job.operation.message)
            job
            job')
      ⊎ (SetupRun service app job.system none job'.system
          × Failed service app_info app (error_message new for_repair) job job')
unfolding run_setup_on_app
run_setup_on_app_lem service app_info app stable for_repair job =
    let current = service.setup_version app.app_id job.system in
    let new = nat_eq current 0 in
    let call = setup_app service app_info app current job.system in
    let run = setup_app-SetupRun service app_info app job.system in
    let system = end_setup-system service app_info new for_repair call job in
    elim (setup_outcome service app_info app new for_repair call job app.version
      (setup_app-Sets service app_info app stable current job.system)) [
        | inl (returned, succeeded) ↦ inl (rw (returned, sym system) at run, succeeded)
        | inr (raised, failed) ↦ inr (
          rw (raised, sym system) at run,
          rw (setup_error_lem service app_info new for_repair) at failed,
        )
      ]
