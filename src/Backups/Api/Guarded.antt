-- ===== src/Backups/Api/Guarded.antt =====
-- What a backup or restore of apps leaves of services and locks.
use freedom_box.Base.{
  String, ◌≡◌, ◌∙◌, sym, ap, refl, Bool, ◌&&◌, not, true, false, inl, inr, Option, Option-cases,
  none, some, List, [], ◌∷◌, ◌==◌, arith, any, if◌then◌else◌,
}
use Prim.Native.String.{◌++◌ as str_append}
use freedom_box.Effect.{M}
use freedom_box.Backups.Api.Defs.{
  Service, Component, Packet, Machine, is_on, turn_off, after_hook, run_hooks, run_operation,
  lockdown_apps, restore_services, shutdown_services,
}
use freedom_box.Backups.Api.Run.{run_locked}
use freedom_box.Backups.Api.Services.{
  same, IsMachine, SetsLocks, locked-shutdown_services, Alike, shutdown_services_lem,
}
use freedom_box.Backups.Api.Stopped.{shutdown_services-off}

module _ {S : Type 0} (machine : Machine S) where
  -- The hooks of the components leave services alone, raised or not.
  unfoldable pub AreHarmless : List (Component S) → Type 0
  AreHarmless [] = Unit {0}
  AreHarmless (c ∷ cs) =
      ((hook : String) (r : S × Packet) → Alike machine (c.hook hook r).1.0 r.0) × AreHarmless cs

  abbrev pub IsHarmless : M (S × Packet) (Unit {0}) → Type 0
  IsHarmless m = (r : S × Packet) → Alike machine (m r).1.0 r.0

  after_hook-Alike :
      (c : Component S) (hook : String) (o : Option (Unit {0}) × (S × Packet)) (r : S)
      → Alike machine o.1.0 r
      → Alike machine (after_hook c hook o).0 r
  after_hook-Alike c hook (some tt, t) r alike = alike
  after_hook-Alike c hook (none, (s, p)) r alike = alike

  run_hooks-Alike :
      (hook : String) (cs : List (Component S)) (r : S × Packet)
      → AreHarmless cs
      → Alike machine (run_hooks hook cs r).0 r.0
  unfolding run_hooks AreHarmless
  run_hooks-Alike hook [] r harmless x = refl
  run_hooks-Alike hook (c ∷ cs) r harmless x =
      run_hooks-Alike hook cs (after_hook c hook (c.hook hook r)) harmless.1 x
      ∙ after_hook-Alike c hook (c.hook hook r) r.0 (harmless.0 hook r) x

  run_operation-Alike :
      (handler : M (S × Packet) (Unit {0})) (operation : String) (cs : List (Component S))
      (r : S × Packet)
      → IsHarmless handler
      → AreHarmless cs
      → Alike machine (run_operation handler operation cs r).1.0 r.0
  unfolding run_operation
  run_operation-Alike handler operation cs r quiet harmless x =
      let pre = run_hooks (str_append operation "_pre") cs r in
      let first = quiet pre x ∙ run_hooks-Alike (str_append operation "_pre") cs r harmless x in
      elim (Option-cases (handler pre).0) [
        | inl raised ↦ rw raised first
        | inr (_, returned) ↦
            rw returned
              (run_hooks-Alike (str_append operation "_post") cs (handler pre).1 harmless x ∙ first)
      ]

  -- The flag of each app is set for the apps of the components.
  locked-lockdown_apps :
      (sets : SetsLocks machine) (cs : List (Component S)) (b : Bool) (j : String) (s : S)
      → machine.locked j (lockdown_apps machine cs b s)
        ≡ (if any (λ c. c.manifest.app_id == j) cs then b else machine.locked j s)
  unfolding lockdown_apps
  locked-lockdown_apps sets [] b j s = refl
  locked-lockdown_apps sets (c ∷ cs) b j s = ground (
    arith,
    locked-lockdown_apps sets cs b j (machine.set_locked c.manifest.app_id b s),
    sets c.manifest.app_id j b s,
  )

  module _ (laws : IsMachine machine) where
    lockdown_apps-Alike :
        (cs : List (Component S)) (b : Bool) (s : S)
        → Alike machine (lockdown_apps machine cs b s) s
    unfolding lockdown_apps
    lockdown_apps-Alike [] b s x = refl
    lockdown_apps-Alike (c ∷ cs) b s x =
        lockdown_apps-Alike cs b (machine.set_locked c.manifest.app_id b s) x
        ∙ laws.lock c.manifest.app_id b x s

-- Where the calls that stop and start a service return and change no other service, setting the flag of
-- an app changes that flag alone, and the handler and the hooks leave services alone: a backup or
-- restore of the components ends as its operation ends, raised or not, in a state in which exactly the
-- services of the components, and those that were off before, are off. At the end every service is on
-- or off as it was at the start, and no app of the components is locked.
pub run_locked_lem :
    {S : Type 0} (machine : Machine S) (handler : Packet → M (S × Packet) (Unit {0}))
    (operation : String) (packet : Packet) (components : List (Component S)) (s : S)
    → IsMachine machine
    → IsHarmless machine (λ r. handler r.1 r)
    → AreHarmless machine components
    → let stopped =
        (shutdown_services machine components (lockdown_apps machine components true s)).1 in
      let end = run_locked machine handler operation packet components s in
      ((v : Service)
        → is_on machine v stopped ≡ (
            not (any (λ c. any (λ w. same w v) c.manifest.services) components)
            && is_on machine v s))
      × (end.0 ≡ (run_operation (λ r. handler r.1 r) operation components (stopped, packet)).0)
      × ((v : Service) → is_on machine v end.1 ≡ is_on machine v s)
      × ((j : String)
          → any (λ c. c.manifest.app_id == j) components ≡ true
          → machine.locked j end.1 ≡ false)
unfolding run_locked
run_locked_lem machine handler operation packet components s laws quiet harmless =
    let begin = lockdown_apps machine components true s in
    let (hs, t, stopped, restored) = shutdown_services_lem machine laws components begin in
    let run = run_operation (λ r. handler r.1 r) operation components (t, packet) in
    let (returned, back) = restored run.1.0 (
      run_operation-Alike machine (λ r. handler r.1 r) operation components (t, packet) quiet
        harmless) in
    let off : (v : Service)
        → is_on machine v t ≡ (
            not (any (λ c. any (λ w. same w v) c.manifest.services) components)
            && is_on machine v s) =
      λ v.
        ap (λ o. is_on machine v o.1) (sym stopped)
        ∙ shutdown_services-off machine laws v components begin
        ∙ ap (λ b. not (any (λ c. any (λ w. same w v) c.manifest.services) components) && b)
            (lockdown_apps-Alike machine laws components true s v) in
    rw (stopped, returned)
      (
        off,
        refl,
        λ v.
            lockdown_apps-Alike machine laws components false
              (restore_services machine hs run.1.0).1 v
            ∙ back v
            ∙ lockdown_apps-Alike machine laws components true s v,
        λ j there.
            locked-lockdown_apps machine laws.locked components false j
              (restore_services machine hs run.1.0).1
            ∙ ap
                (λ b. if b then false else machine.locked j (restore_services machine hs run.1.0).1)
                there,
      )

-- When the shutdown of the services raises, the backup or restore raises and the apps of the
-- components stay locked, where the calls that stop services leave locks alone: the shutdown stands
-- before `try`.
pub run_locked_stays_locked :
    {S : Type 0} (machine : Machine S) (handler : Packet → M (S × Packet) (Unit {0}))
    (operation : String) (packet : Packet) (components : List (Component S)) (s : S) (j : String)
    → SetsLocks machine
    → ((v : Service) (t : S) → machine.locked j (turn_off machine v t).1 ≡ machine.locked j t)
    → (shutdown_services machine components (lockdown_apps machine components true s)).0 ≡ none
    → any (λ c. c.manifest.app_id == j) components ≡ true
    → ((run_locked machine handler operation packet components s).0 ≡ none)
      × (machine.locked j (run_locked machine handler operation packet components s).1 ≡ true)
unfolding run_locked
run_locked_stays_locked machine handler operation packet components s j sets keeps raised there =
    let begin = lockdown_apps machine components true s in
    rw raised (
      refl,
      locked-shutdown_services machine j keeps components begin
          ∙ locked-lockdown_apps machine sets components true j s
          ∙ ap (λ b. if b then true else machine.locked j s) there,
    )
