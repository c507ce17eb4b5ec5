-- ===== src/Backups/Api/Stopped.antt =====
-- The services of the components are off after _shutdown_services.
use freedom_box.Base.{
  ◌≡◌, ◌∙◌, sym, ap, refl, Bool, true, false, Bool-cases, inl, inr, ◌&&◌, ◌||◌, not, any, List, [],
  ◌∷◌, arith, if◌then◌else◌,
}
use freedom_box.Backups.Api.Defs.{
  Service, Component, Machine, Handler, is_on, stop_handler, stop_reversed, handlers_of,
  add_handlers, shutdown_services,
}
use freedom_box.Backups.Api.Services.{same, same_iff, IsMachine, restart_lem, stop_reversed_lem}

if_off : (b c : Bool) → (if b then false else c) ≡ (not b && c)
if_off true c = refl
if_off false c = refl

module _ {S : Type 0} (machine : Machine S) (laws : IsMachine machine) where
  stop_handler-off :
      (v : Service) (h : Handler) (s : S)
      → is_on machine v (stop_handler machine h s).1 ≡ (not (same h.service v) && is_on machine v s)
  unfolding stop_handler
  stop_handler-off v h s = elim (Bool-cases (is_on machine h.service s)) [
    | inl was ↦
        rw (was, (laws.off h.service s).0)
          ((laws.off h.service s).1 v ∙ if_off (same h.service v) (is_on machine v s))
    | inr was ↦ rw was (elim (Bool-cases (same h.service v)) [
      | inl e ↦
          ap (λ z. is_on machine z s) (sym (same_iff h.service v e))
          ∙ was
          ∙ ap (λ b. not b && is_on machine v s) (sym e)
      | inr e ↦ ap (λ b. not b && is_on machine v s) (sym e)
    ])
  ]

  stop_reversed-off :
      (v : Service) (hs : List Handler) (s : S)
      → is_on machine v (stop_reversed machine hs s).1
        ≡ (not (any (λ h. same h.service v) hs) && is_on machine v s)
  unfolding stop_reversed
  stop_reversed-off v [] s = refl
  stop_reversed-off v (h ∷ hs) s =
      let (hs', s1, stopped, rest) = stop_reversed_lem machine laws hs s in
      let (h', s2, last, first) = restart_lem machine laws h s1 in
      let before = stop_reversed-off v hs s in
      let one = stop_handler-off v h s1 in
      let before' : is_on machine v s1
          ≡ (not (any (λ k. same k.service v) hs) && is_on machine v s) =
        ap (λ o. is_on machine v o.1) (sym stopped) ∙ before in
      let one' : is_on machine v s2 ≡ (not (same h.service v) && is_on machine v s1) =
        ap (λ o. is_on machine v o.1) (sym last) ∙ one in
      rw (stopped, last) (ground arith)

  any-add_handlers :
      (v : Service) (vs : List Service) (hs : List Handler)
      → any (λ h. same h.service v) (add_handlers machine vs hs)
        ≡ (any (λ w. same w v) vs || any (λ h. same h.service v) hs)
  any-add_handlers v [] hs = refl
  any-add_handlers v (w ∷ vs) hs = ground (arith, any-add_handlers v vs hs)

  any-handlers_of :
      (v : Service) (cs : List (Component S))
      → any (λ h. same h.service v) (handlers_of machine cs)
        ≡ any (λ c. any (λ w. same w v) c.manifest.services) cs
  unfolding handlers_of
  any-handlers_of v [] = refl
  any-handlers_of v (c ∷ cs) =
      ground (
        arith,
        any-add_handlers v c.manifest.services (handlers_of machine cs),
        any-handlers_of v cs,
      )

  -- After the shutdown exactly the services of the components are off, and else what was off.
  pub shutdown_services-off :
      (v : Service) (cs : List (Component S)) (s : S)
      → is_on machine v (shutdown_services machine cs s).1
        ≡ (not (any (λ c. any (λ w. same w v) c.manifest.services) cs) && is_on machine v s)
  unfolding shutdown_services
  shutdown_services-off v cs s =
      stop_reversed-off v (handlers_of machine cs) s
      ∙ ap (λ b. not b && is_on machine v s) (any-handlers_of v cs)
