-- ===== src/Backups/Api/Tests.antt =====
-- A machine whose state is which services are on and which apps are locked.
use freedom_box.Base.{
  String, ◌≡◌, ◌∙◌, sym, ap, refl, Bool, true, false, ◌&&◌, not, none, some, [], ◌∷◌, ◌==◌, any,
  if◌then◌else◌,
}
use freedom_box.Effect.{M, raise}
use freedom_box.Backups.Api.Defs.{
  Service, system, apache, apps, Component, Packet, Machine, is_on, turn_off, turn_on,
  run_operation, shutdown_services, lockdown_apps, handlers_of, stop_reversed, stop_handler,
}
use freedom_box.Backups.Api.Run.{run_locked}
use freedom_box.Backups.Api.Services.{same, IsMachine}
use freedom_box.Backups.Api.Guarded.{AreHarmless, run_locked_lem, run_locked_stays_locked}

abbrev State : Type 0
State = (Service → Bool) × (String → Bool)

abbrev switch : Bool → Service → M State (Unit {0})
switch b v s = (some tt, ((λ x. if same v x then b else s.0 x), s.1))

abbrev machine : Machine State
machine = record {
  service_is_running = λ name s. s.0 (system name);
  stop = λ name. switch false (system name);
  start = λ name. switch true (system name);
  webserver_is_enabled = λ name kind s. s.0 (apache name kind);
  disable = λ name kind. switch false (apache name kind);
  enable = λ name kind. switch true (apache name kind);
  locked = λ j s. s.1 j;
  set_locked = λ id b s. (s.0, λ j. if id == j then b else s.1 j);
}

is_on-state : (x : Service) (s : State) → is_on machine x s ≡ s.0 x
is_on-state (system name) s = refl
is_on-state (apache name kind) s = refl

switch_lem :
    (b : Bool) (v x : Service) (s : State)
    → is_on machine x (switch b v s).1 ≡ (if same v x then b else is_on machine x s)
switch_lem b v x s =
    is_on-state x (switch b v s).1 ∙ ap (λ c. if same v x then b else c) (sym (is_on-state x s))

off_law :
    (v : Service) (s : State)
    → ((turn_off machine v s).0 ≡ some tt)
      × ((x : Service)
          → is_on machine x (turn_off machine v s).1
            ≡ (if same v x then false else is_on machine x s))
off_law (system name) s = (refl, λ x. switch_lem false (system name) x s)
off_law (apache name kind) s = (refl, λ x. switch_lem false (apache name kind) x s)

on_law :
    (v : Service) (s : State)
    → ((turn_on machine v s).0 ≡ some tt)
      × ((x : Service)
          → is_on machine x (turn_on machine v s).1
            ≡ (if same v x then true else is_on machine x s))
on_law (system name) s = (refl, λ x. switch_lem true (system name) x s)
on_law (apache name kind) s = (refl, λ x. switch_lem true (apache name kind) x s)

machine-IsMachine : IsMachine machine
machine-IsMachine = record {
  off = off_law;
  on = on_law;
  lock =
      λ id b x s. is_on-state x (s.0, (λ j. if id == j then b else s.1 j)) ∙ sym (is_on-state x s);
  locked = λ id j b s. refl;
}

abbrev blog : Component State
blog = record {
  manifest = record {
    app_id = "blog";
    config = record { directories = []; files = "/etc/blog" ∷ [] };
    own_data = record { directories = "/var/lib/blog" ∷ []; files = [] };
    secrets = record { directories = []; files = [] };
    services = system "db" ∷ apache "blog" "config" ∷ system "db" ∷ [];
    settings = [];
  };
  hook = λ name r. (none, r);
}

abbrev packet : Packet
packet = record {
  operation = "backup";
  scope = apps;
  root = "/";
  path = none;
  archive_comment = none;
  errors = [];
  directories = [];
  files = [];
}

abbrev begin : State
begin = ((λ v. true), (λ j. false))

blog-AreHarmless : AreHarmless machine (blog ∷ [])
unfolding AreHarmless
blog-AreHarmless = ((λ hook r x. refl), tt)

-- A backup whose handler raises
run_locked_lem_example :
    let stopped =
      (shutdown_services machine (blog ∷ []) (lockdown_apps machine (blog ∷ []) true begin)).1 in
    let end = run_locked machine (λ p. raise) "backup" packet (blog ∷ []) begin in
    ((v : Service)
      → is_on machine v stopped ≡ (
          not (any (λ c. any (λ w. same w v) c.manifest.services) (blog ∷ []))
          && is_on machine v begin))
    × (end.0 ≡ (run_operation raise "backup" (blog ∷ []) (stopped, packet)).0)
    × ((v : Service) → is_on machine v end.1 ≡ is_on machine v begin)
    × ((j : String)
        → any (λ c. c.manifest.app_id == j) (blog ∷ []) ≡ true
        → machine.locked j end.1 ≡ false)
run_locked_lem_example =
    run_locked_lem machine (λ p. raise) "backup" packet (blog ∷ []) begin machine-IsMachine
      (λ r x. refl) blog-AreHarmless

-- The same machine when a service cannot be stopped.
abbrev stuck : Machine State
stuck = record machine { stop = λ name. raise }

stuck_keeps_locks :
    (v : Service) (t : State) → stuck.locked "blog" (turn_off stuck v t).1 ≡ stuck.locked "blog" t
stuck_keeps_locks (system name) t = refl
stuck_keeps_locks (apache name kind) t = refl

not_stopped :
    (shutdown_services stuck (blog ∷ []) (lockdown_apps stuck (blog ∷ []) true begin)).0 ≡ none
unfolding shutdown_services handlers_of stop_reversed stop_handler lockdown_apps
not_stopped = refl

run_locked_stays_locked_example :
    ((run_locked stuck (λ p. raise) "backup" packet (blog ∷ []) begin).0 ≡ none)
    × (stuck.locked "blog" (run_locked stuck (λ p. raise) "backup" packet (blog ∷ []) begin).1
        ≡ true)
run_locked_stays_locked_example =
    run_locked_stays_locked stuck (λ p. raise) "backup" packet (blog ∷ []) begin "blog"
      (λ id j b s. refl) stuck_keeps_locks not_stopped refl
