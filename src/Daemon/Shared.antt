-- ===== src/Daemon/Shared.antt =====
-- When a shared daemon is disabled with its app.
use freedom_box.Base.{
  String, ◌≡◌, ◌≢◌, ◌⊎◌, refl, Bool, true, Bool-cases, inl, inr, ◌&&◌, some, List, [], ◌∷◌, ◌==◌,
  eq_iff, arith, any, contains,
}
use freedom_box.Daemon.Defs.{
  Daemon, DaemonApp, Systemd, other_apps_enabled, disable, disable_shared,
}

module _ {S : Type 0} (d : Daemon) (s : S) where
  -- Another app, by its id, is enabled and has a shared daemon of this unit.
  pub data IsUsed : List (DaemonApp S) → Type 0 where
    here :
        {app : DaemonApp S} {apps : List (DaemonApp S)}
        → app.app_id ≢ d.app_id
        → contains d.unit app.shared_units ≡ true
        → app.is_enabled s ≡ true
        → IsUsed (app ∷ apps)
    there : {app : DaemonApp S} {apps : List (DaemonApp S)} → IsUsed apps → IsUsed (app ∷ apps)

  any-enabled :
      (units : List String) (enabled : Bool)
      → any (λ unit. unit == d.unit && enabled) units ≡ (contains d.unit units && enabled)
  any-enabled [] enabled = refl
  any-enabled (unit ∷ units) enabled = ground (arith, any-enabled units enabled)

  other_apps_enabled-IsUsed :
      (apps : List (DaemonApp S)) → other_apps_enabled d apps s ≡ true → IsUsed apps
  unfolding other_apps_enabled
  other_apps_enabled-IsUsed [] e = absurd (ground arith)
  other_apps_enabled-IsUsed (app ∷ apps) e =
      let one = any-enabled app.shared_units (app.is_enabled s) in
      elim (Bool-cases (other_apps_enabled d apps s)) [
        | inl later ↦ there (other_apps_enabled-IsUsed apps later)
        | inr none_later ↦
            here
              (λ same.
                let h = (eq_iff app.app_id d.app_id).1 same in
                absurd (ground (arith, e, h, none_later)))
              (ground (arith, e, one, none_later)) (ground (arith, e, one, none_later))
      ]

  IsUsed-other_apps_enabled :
      (apps : List (DaemonApp S)) → IsUsed apps → other_apps_enabled d apps s ≡ true
  unfolding other_apps_enabled
  IsUsed-other_apps_enabled [] used = elim used [ ]
  IsUsed-other_apps_enabled (app ∷ apps) (here other unit enabled) =
      let one = any-enabled app.shared_units (app.is_enabled s) in
      elim (Bool-cases (app.app_id == d.app_id)) [
        | inl same ↦ absurd (other ((eq_iff app.app_id d.app_id).0 same))
        | inr different ↦ ground (arith, one, different, unit, enabled)
      ]
  IsUsed-other_apps_enabled (app ∷ apps) (there used) =
      let rest = IsUsed-other_apps_enabled apps used in ground (arith, rest)

-- Disabling a shared daemon changes nothing when another enabled app uses its unit, and else does what
-- disabling a daemon does.
pub disable_shared_lem :
    {S : Type 0} (systemd : Systemd S) (d : Daemon) (apps : List (DaemonApp S)) (s : S)
    → (IsUsed d s apps × (disable_shared systemd d apps s ≡ (some tt, s)))
      ⊎ (¬ IsUsed d s apps × (disable_shared systemd d apps s ≡ disable systemd d s))
unfolding disable_shared
disable_shared_lem systemd d apps s = elim (Bool-cases (other_apps_enabled d apps s)) [
  | inl used ↦ inl (other_apps_enabled-IsUsed d s apps used, rw used refl)
  | inr free ↦ inr (
    λ used. let h = IsUsed-other_apps_enabled d s apps used in absurd (ground (arith, h, free)),
    rw free refl,
  )
]
