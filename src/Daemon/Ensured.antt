-- ===== src/Daemon/Ensured.antt =====
-- What ensure_running leaves of the unit.
use freedom_box.Base.{◌≡◌, ◌∙◌, refl, arith, Bool, true, false, Option, some}
use freedom_box.Effect.{M, ◌>>◌}
use freedom_box.Daemon.Defs.{Daemon, Systemd, start_first, stop_again, ensure_running}

module _ {S : Type 0} (systemd : Systemd S) (d : Daemon) where
  -- Enabling a unit starts it, and disabling it stops it; both return.
  pub record IsSystemd : Type 0 where
    pub enabled :
        (s : S)
        → ((systemd.enable d.unit s).0 ≡ some tt)
          × (systemd.service_is_running d.unit (systemd.enable d.unit s).1 ≡ true)
    pub disabled :
        (s : S)
        → ((systemd.disable d.unit s).0 ≡ some tt)
          × (systemd.service_is_running d.unit (systemd.disable d.unit s).1 ≡ false)
          × (systemd.service_is_enabled d.unit d.strict_check (systemd.disable d.unit s).1 ≡ false)

  module _ (laws : IsSystemd) (block : Bool → M S (Unit {0}))
      (steady : (b : Bool) (s : S)
        → systemd.service_is_running d.unit (block b s).1
          ≡ systemd.service_is_running d.unit s) where
    -- The state in which the block runs, and what is left after it
    Ensured : Bool → S → Option (Unit {0}) × S → Type 0
    Ensured was s end =
        let begin = (start_first systemd d was s).1 in
        (systemd.service_is_running d.unit begin ≡ true)
        × (end.0 ≡ (block was begin).0)
        × (systemd.service_is_running d.unit end.1 ≡ was)
        × (was ≡ false → systemd.service_is_enabled d.unit d.strict_check end.1 ≡ false)

    ensured :
        (was : Bool) (s : S)
        → systemd.service_is_running d.unit s ≡ was
        → Ensured was s
            ((start_first systemd d was >> λ t. stop_again systemd d was (block was t)) s)
    unfolding Ensured
    ensured true s running = (running, refl, steady true s ∙ running, λ e. absurd (ground arith))
    ensured false s stopped =
        let (started, up) = laws.enabled s in
        let after = (block false (systemd.enable d.unit s).1).1 in
        let (returned, down, off) = laws.disabled after in
        (
          up,
          rw (started, returned) refl,
          rw (started, returned) down,
          λ e. rw (started, returned) off,
        )

-- For a unit that systemd finds, where enabling it starts it and disabling it stops it, and the block
-- leaves it running or stopped as it is: the block of ensure_running has the unit running, the call
-- ends as the block ends, raised or not, and at the end the unit runs exactly if it ran before. A unit
-- that did not run is left disabled, also when it was enabled before.
pub ensure_running_lem :
    {S : Type 0} (systemd : Systemd S) (d : Daemon) (block : Bool → M S (Unit {0})) (s : S)
    → IsSystemd systemd d
    → ((b : Bool) (t : S)
        → systemd.service_is_running d.unit (block b t).1 ≡ systemd.service_is_running d.unit t)
    → systemd.is_found d.unit s ≡ true
    → let was = systemd.service_is_running d.unit s in
      let begin = (start_first systemd d was s).1 in
      let end = ensure_running systemd d block s in
      (systemd.service_is_running d.unit begin ≡ true)
      × (end.0 ≡ (block was begin).0)
      × (systemd.service_is_running d.unit end.1 ≡ was)
      × (was ≡ false → systemd.service_is_enabled d.unit d.strict_check end.1 ≡ false)
unfolding ensure_running Ensured
ensure_running_lem systemd d block s laws steady found =
    rw found (ensured systemd d laws block steady (systemd.service_is_running d.unit s) s refl)
