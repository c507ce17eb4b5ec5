-- ===== src/Backups/Api/Services.antt =====
-- Services that were stopped for a backup are as they were before when they are restored.
use freedom_box.Base.{
  String, ◌≡◌, ◌∙◌, sym, ap, refl, Bool, true, false, Bool-cases, inl, inr, ◌&&◌, Option-cases,
  some, List, [], ◌∷◌, ◌==◌, eq_iff, arith, if◌then◌else◌,
}
use freedom_box.Backups.Api.Defs.{
  Service, system, apache, Component, Machine, Handler, is_on, turn_off, turn_on, stop_handler,
  restart, stop_reversed, restore_services, handlers_of, shutdown_services,
}

abbrev pub same : Service → Service → Bool
same (system a) (system b) = a == b
same (apache a k) (apache b l) = a == b && k == l
same _ _ = false

pub same_iff : (v x : Service) → same v x ≡ true → v ≡ x
same_iff (system a) (system b) e = ap system ((eq_iff a b).0 e)
same_iff (apache a k) (apache b l) e =
    let h : (a == b ≡ true) × (k == l ≡ true) = (ground arith, ground arith) in
    let f = (eq_iff a b).0 h.0 in let g = (eq_iff k l).0 h.1 in cc
same_iff (system a) (apache b l) e = absurd (ground arith)
same_iff (apache a k) (system b) e = absurd (ground arith)

module _ {S : Type 0} (machine : Machine S) where
  -- Setting the flag of an app sets it for that app alone.
  abbrev pub SetsLocks : Type 0
  SetsLocks =
      (id j : String) (b : Bool) (s : S)
      → machine.locked j (machine.set_locked id b s) ≡ (if id == j then b else machine.locked j s)

  -- Stopping and starting a service returns and changes no other service, so that no service of the
  -- machine depends on another; the flag of an app is no service.
  pub record IsMachine : Type 0 where
    pub off :
        (v : Service) (s : S)
        → ((turn_off machine v s).0 ≡ some tt)
          × ((x : Service)
              → is_on machine x (turn_off machine v s).1
                ≡ (if same v x then false else is_on machine x s))
    pub on :
        (v : Service) (s : S)
        → ((turn_on machine v s).0 ≡ some tt)
          × ((x : Service)
              → is_on machine x (turn_on machine v s).1
                ≡ (if same v x then true else is_on machine x s))
    pub lock :
        (id : String) (b : Bool) (x : Service) (s : S)
        → is_on machine x (machine.set_locked id b s) ≡ is_on machine x s
    pub locked : SetsLocks

  -- Each service is on in both states or in none.
  abbrev pub Alike : S → S → Type 0
  Alike s t = (x : Service) → is_on machine x s ≡ is_on machine x t

  -- Stopping a service and, in a state that is alike, starting it again.
  module _ (laws : IsMachine) where
    stopped_and_started :
        (v x : Service) (s t : S)
        → is_on machine v s ≡ true
        → is_on machine x t ≡ is_on machine x (turn_off machine v s).1
        → is_on machine x (turn_on machine v t).1 ≡ is_on machine x s
    stopped_and_started v x s t was alike = elim (Bool-cases (same v x)) [
      | inl e ↦
          (laws.on v t).1 x
          ∙ ap (λ b. if b then true else is_on machine x t) e
          ∙ sym was
          ∙ ap (λ z. is_on machine z s) (same_iff v x e)
      | inr e ↦
          (laws.on v t).1 x
          ∙ ap (λ b. if b then true else is_on machine x t) e
          ∙ alike
          ∙ (laws.off v s).1 x
          ∙ ap (λ b. if b then false else is_on machine x s) e
    ]

    pub restart_lem :
        (h : Handler) (s : S)
        → (h' : Handler) × (s' : S) × (stop_handler machine h s ≡ (some h', s'))
          × ((t : S)
              → Alike t s'
              → ((restart machine h' t).0 ≡ some tt) × Alike (restart machine h' t).1 s)
    unfolding stop_handler restart
    restart_lem h s = elim (Bool-cases (is_on machine h.service s)) [
      | inl was ↦ (
        record h { was_on = some true },
        (turn_off machine h.service s).1,
        rw (was, (laws.off h.service s).0) refl,
        λ t alike.
            ((laws.on h.service t).0, λ x. stopped_and_started h.service x s t was (alike x)),
      )
      | inr was ↦ (record h { was_on = some false }, s, rw was refl, λ t alike. (refl, alike))
    ]

    -- The services are stopped, and when they are restored from a state that is alike, all are as
    -- before.
    pub stop_reversed_lem :
        (hs : List Handler) (s : S)
        → (hs' : List Handler) × (s' : S) × (stop_reversed machine hs s ≡ (some hs', s'))
          × ((t : S)
              → Alike t s'
              → ((restore_services machine hs' t).0 ≡ some tt)
                × Alike (restore_services machine hs' t).1 s)
    unfolding stop_reversed restore_services
    stop_reversed_lem [] s = ([], s, refl, λ t alike. (refl, alike))
    stop_reversed_lem (h ∷ hs) s =
        let (hs', s1, stopped, rest) = stop_reversed_lem hs s in
        let (h', s2, last, first) = restart_lem h s1 in
        (
          h' ∷ hs',
          s2,
          rw (stopped, last) refl,
          λ t alike.
              let (returned, back) = first t alike in
              let next = rest (restart machine h' t).1 back in rw returned next,
        )

    pub shutdown_services_lem :
        (cs : List (Component S)) (s : S)
        → (hs : List Handler) × (s' : S) × (shutdown_services machine cs s ≡ (some hs, s'))
          × ((t : S)
              → Alike t s'
              → ((restore_services machine hs t).0 ≡ some tt)
                × Alike (restore_services machine hs t).1 s)
    unfolding shutdown_services
    shutdown_services_lem cs s = stop_reversed_lem (handlers_of machine cs) s

  -- Stopping services leaves the flag of an app alone when each call does, raised or not.
  module _ (j : String)
      (keeps : (v : Service) (s : S)
        → machine.locked j (turn_off machine v s).1 ≡ machine.locked j s) where
    locked-stop_handler :
        (h : Handler) (s : S) → machine.locked j (stop_handler machine h s).1 ≡ machine.locked j s
    unfolding stop_handler
    locked-stop_handler h s = elim (Bool-cases (is_on machine h.service s)) [
      | inl was ↦ elim (Option-cases (turn_off machine h.service s).0) [
        | inl raised ↦ rw (was, raised) (keeps h.service s)
        | inr (_, returned) ↦ rw (was, returned) (keeps h.service s)
      ]
      | inr was ↦ rw was refl
    ]

    locked-stop_reversed :
        (hs : List Handler) (s : S)
        → machine.locked j (stop_reversed machine hs s).1 ≡ machine.locked j s
    unfolding stop_reversed
    locked-stop_reversed [] s = refl
    locked-stop_reversed (h ∷ hs) s =
        let rest = stop_reversed machine hs s in
        let ih = locked-stop_reversed hs s in
        elim (Option-cases rest.0) [
          | inl raised ↦ rw raised ih
          | inr (_, returned) ↦
              let one = locked-stop_handler h rest.1 ∙ ih in
              elim (Option-cases (stop_handler machine h rest.1).0) [
                | inl raised ↦ rw (returned, raised) one
                | inr (_, again) ↦ rw (returned, again) one
              ]
        ]

    pub locked-shutdown_services :
        (cs : List (Component S)) (s : S)
        → machine.locked j (shutdown_services machine cs s).1 ≡ machine.locked j s
    unfolding shutdown_services
    locked-shutdown_services cs s = locked-stop_reversed (handlers_of machine cs) s
