-- ===== src/Setup/Upgraded.antt =====
-- When the upgrade of an app lets its setup go on.
use freedom_box.Base.{
  String, ◌≡◌, ◌∙◌, ap, refl, Bool, true, false, inl, inr, ◌⊎◌, Option, none, some, arith,
  if◌then◌else◌,
}
use freedom_box.Dict.{Dict, lookup}
use freedom_box.Effect.{M, pure, raise, continue-some}
use freedom_box.Setup.Apps.{Service}
use freedom_box.Setup.Managed.{apps_to_force_upgrade}
use freedom_box.Setup.Upgrade.{force_upgrade_app, upgrade_app, attempt_upgrade_for_app}

module _ {S : Type 0} where
  if_done :
      (done : Bool) (s : S) (b : Bool)
      → ((if done then pure true else raise) s).0 ≡ some b
      → (b ≡ true) × (done ≡ true)
  if_done true s b e = (ground arith, refl)
  if_done false s b e = absurd (ground arith)

  if_running :
      (stopping : Bool) (s : S) (r : Option Bool × S) (b : Bool)
      → (if stopping then (none, s) else r).0 ≡ some b
      → (stopping ≡ false) × (r.0 ≡ some b)
  if_running true s r b e = absurd (ground arith)
  if_running false s r b e = (refl, e)

  if_idle :
      (busy : Bool) (m : M S Bool) (s : S) (b : Bool)
      → ((if busy then raise else m) s).0 ≡ some b
      → (busy ≡ false) × ((m s).0 ≡ some b)
  if_idle true m s b e = absurd (ground arith)
  if_idle false m s b e = (refl, e)

module _ {S : Type 0} (service : Service S) where
  -- What stands behind the answer on one app.
  pub Upgraded : String → Option (Dict String) → S → Bool → Type 0
  Upgraded id o s b =
      ((b ≡ false) × (o ≡ none))
      ⊎ ((b ≡ true)
          × (packages : Dict String) × (o ≡ some packages)
          × ((force_upgrade_app service id service.apps packages s).0 ≡ some true))

  upgrade_app-Upgraded :
      (id : String) (o : Option (Dict String)) (s : S) (b : Bool)
      → (upgrade_app service id o s).0 ≡ some b
      → Upgraded id o s b
  unfolding Upgraded
  upgrade_app-Upgraded id none s b e = inl (ground arith, refl)
  upgrade_app-Upgraded id (some packages) s b e =
      let call = force_upgrade_app service id service.apps packages s in
      let (done, returned, rest) =
        continue-some call.0 (λ done. if done then pure true else raise) call.1 e in
      let (yes_b, yes_done) = if_done done call.1 b rest in
      inr (yes_b, packages, refl, returned ∙ ap some yes_done)

-- When the upgrade of an app for its setup returns: the service was not shutting down, the package
-- manager was free, and apt told which apps have packages to be upgraded by force. It answers false
-- only when the app has none, and true only when `force_upgrade` of the app has returned true for its
-- packages.
pub attempt_upgrade_for_app_lem :
    {S : Type 0} (service : Service S) (id : String) (s : S) (b : Bool)
    → (attempt_upgrade_for_app service id s).0 ≡ some b
    → (service.is_shutting_down s ≡ false)
      × ((service.is_package_manager_busy s).0 ≡ some false)
      × (apps : Dict (Dict String)) × ((apps_to_force_upgrade service
            (service.is_package_manager_busy s).1).0
          ≡ some apps)
      × Upgraded service id
          (lookup id apps)
          (apps_to_force_upgrade service (service.is_package_manager_busy s).1).1
          b
unfolding attempt_upgrade_for_app
attempt_upgrade_for_app_lem service id s b e =
    let (running, free) = if_running (service.is_shutting_down s) s _ b e in
    let call = service.is_package_manager_busy s in
    let (busy, told, rest) = continue-some call.0 _ call.1 free in
    let (idle, go) = if_idle busy _ call.1 b rest in
    let list = apps_to_force_upgrade service call.1 in
    let (apps, listed, end) =
      continue-some list.0 (λ apps. upgrade_app service id (lookup id apps)) list.1 go in
    (
      running,
      told ∙ ap some idle,
      apps,
      listed,
      upgrade_app-Upgraded service id (lookup id apps) list.1 b end,
    )
