-- ===== src/Setup/Regular.antt =====
-- Which apps the regular setup sets up.
use freedom_box.Base.{
  ℕ, String, ◌≡◌, ◌∙◌, refl, ap, sym, subst, Bool, true, false, Bool-cases, inl, inr, ◌&&◌, not,
  Option-cases, none, some, List, [], ◌∷◌, eq_iff, eq_refl, arith, keep_if, nat_eq, leb, map,
  contains, if◌then◌else◌,
}
use freedom_box.Effect.{M, pure, for_each}
use freedom_box.Operation.Defs.{Request}
use freedom_box.App.Lifecycle.Defs.{get_setup_state}
use freedom_box.Setup.Apps.{Entry, Service}
use freedom_box.Setup.Start.{
  launch_if, launch_setup, launch_selected, setup_request, setup_apps, run_setup_on_apps,
  is_setup_required, is_up_to_date, apps_for_regular_setup, run_regular_setup,
}

-- No id stands twice.
abbrev pub AreDistinct : List String → Type 0
AreDistinct [] = Unit {0}
AreDistinct (id ∷ ids) = (contains id ids ≡ false) × AreDistinct ids

module _ {S : Type 0} where
  abbrev ids_of : List (Entry S) → List String
  ids_of = map (λ e. e.app.app_id)

  -- What is asked of each app is the same as what is chosen.
  abbrev Agree : (Entry S → Bool) → (Entry S → Bool) → List (Entry S) → Type 0
  Agree f g [] = Unit {0}
  Agree f g (e ∷ es) = (f e ≡ g e) × Agree f g es

  for_each-keep_if :
      (f g : Entry S → Bool) (m : Entry S → M S (Unit {0})) (es : List (Entry S)) (s : S)
      → Agree f g es
      → for_each (λ e. if f e then m e else pure tt) es s ≡ for_each m (keep_if g es) s
  for_each-keep_if f g m [] s agree = refl
  for_each-keep_if f g m (e ∷ es) s agree = elim (Bool-cases (g e)) [
    | inl chosen ↦ elim (Option-cases (m e s).0) [
      | inl raised ↦ rw (agree.0, chosen, raised) refl
      | inr (_, returned) ↦
          rw (agree.0, chosen, returned) (for_each-keep_if f g m es (m e s).1 agree.1)
    ]
    | inr other ↦ rw (agree.0, other) (for_each-keep_if f g m es s agree.1)
  ]

  contains-ids_of :
      (g : Entry S → Bool) (id : String) (es : List (Entry S))
      → contains id (ids_of es) ≡ false
      → contains id (ids_of (keep_if g es)) ≡ false
  contains-ids_of g id [] e = refl
  contains-ids_of g id (x ∷ es) e = ground (arith, contains-ids_of g id es)

  Agree-more :
      (g : Entry S → Bool) (id : String) (ids : List String) (es : List (Entry S))
      → contains id (ids_of es) ≡ false
      → Agree (λ e. contains e.app.app_id ids) g es
      → Agree (λ e. contains e.app.app_id (id ∷ ids)) g es
  Agree-more g id ids [] new agree = tt
  Agree-more g id ids (e ∷ es) new agree = (
    ground (arith, eq_iff id e.app.app_id, eq_iff e.app.app_id id),
    Agree-more g id ids es (ground arith) agree.1,
  )

  Agree-ids_of :
      (g : Entry S → Bool) (es : List (Entry S))
      → AreDistinct (ids_of es)
      → Agree (λ e. contains e.app.app_id (ids_of (keep_if g es))) g es
  Agree-ids_of g [] distinct = tt
  Agree-ids_of g (e ∷ es) distinct = elim (Bool-cases (g e)) [
    | inl chosen ↦
        let more : ids_of (keep_if g (e ∷ es)) ≡ e.app.app_id ∷ ids_of (keep_if g es) =
          rw chosen refl in
        subst (λ ids. Agree (λ x. contains x.app.app_id ids) g (e ∷ es)) (sym more)
          (
            ground (arith, eq_refl e.app.app_id, chosen),
            Agree-more g e.app.app_id (ids_of (keep_if g es)) es distinct.0
                (Agree-ids_of g es distinct.1),
          )
    | inr other ↦
        let same : ids_of (keep_if g (e ∷ es)) ≡ ids_of (keep_if g es) = rw other refl in
        subst (λ ids. Agree (λ x. contains x.app.app_id ids) g (e ∷ es)) (sym same)
          (contains-ids_of g e.app.app_id es distinct.0 ∙ sym other, Agree-ids_of g es distinct.1)
  ]

is_up_to_date-get_setup_state :
    (current version : ℕ)
    → is_up_to_date (get_setup_state current version)
      ≡ (not (nat_eq current 0) && leb version current)
unfolding get_setup_state
is_up_to_date-get_setup_state current version = elim (Bool-cases (nat_eq current 0)) [
  | inl new ↦ rw new refl
  | inr old ↦ elim (Bool-cases (leb version current)) [
    | inl high ↦ rw (old, high) refl
    | inr low ↦ rw (old, low) refl
  ]
]

if_quiet :
    {S : Type 0} (essential : Bool) (m : M S (Unit {0})) (s : S)
    → (essential ≡ true → m s ≡ (some tt, s))
    → (if (if true && not essential then false else true) then m else pure tt) s ≡ (some tt, s)
if_quiet true m s quiet = quiet refl
if_quiet false m s quiet = refl

ids_of_nil : {S : Type 0} (es : List (Entry S)) → ids_of es ≡ [] → es ≡ []
ids_of_nil [] e = refl
ids_of_nil (x ∷ es) e = absurd (ground arith)

module _ {S : Type 0} (service : Service S) (launch : Request → Bool → M S (Unit {0})) where
  setup_request_quiet :
      (e : Entry S) (s : S)
      → is_setup_required service launch s e ≡ false
      → e.is_essential ≡ true
      → setup_request e (service.setup_version e.app.app_id s) false ≡ none
  unfolding is_setup_required setup_request
  setup_request_quiet e s other essential =
      let current = service.setup_version e.app.app_id s in
      let state = is_up_to_date-get_setup_state current e.app.version in
      let high : leb e.app.version current ≡ true = ground (arith, state, other, essential) in
      rw high refl

  selected_quiet :
      (e : Entry S) (s : S)
      → is_setup_required service launch s e ≡ false
      → launch_selected service launch [] true true e s ≡ (some tt, s)
  unfolding launch_setup
  selected_quiet e s other =
      if_quiet e.is_essential (launch_setup service launch true e) s (λ essential.
        ap (λ q. launch_if service launch q true s) (setup_request_quiet e s other essential))

  essential_quiet :
      (es : List (Entry S)) (s : S)
      → keep_if (is_setup_required service launch s) es ≡ []
      → for_each (launch_selected service launch [] true true) es s ≡ (some tt, s)
  essential_quiet [] s none_required = refl
  essential_quiet (e ∷ es) s none_required =
      elim (Bool-cases (is_setup_required service launch s e)) [
        | inl required ↦ absurd (ground arith)
        | inr other ↦ rw (selected_quiet e s other) (essential_quiet es s (ground arith))
      ]

  regular_setup_of :
      (ids : List String) (s : S)
      → ids_of (keep_if (is_setup_required service launch s) service.apps) ≡ ids
      → AreDistinct (ids_of service.apps)
      → run_setup_on_apps service launch ids true s
        ≡ for_each
            (launch_setup service launch true)
            (keep_if (is_setup_required service launch s) service.apps)
            s
  unfolding run_setup_on_apps setup_apps
  regular_setup_of [] s e distinct =
      let nothing = ids_of_nil (keep_if (is_setup_required service launch s) service.apps) e in
      essential_quiet service.apps s nothing ∙ rw nothing refl
  regular_setup_of (id ∷ ids) s e distinct =
      for_each-keep_if (λ x. contains x.app.app_id (id ∷ ids)) (is_setup_required service launch s)
        (launch_setup service launch true) service.apps s
        (subst
          (λ l.
            Agree (λ x. contains x.app.app_id l) (is_setup_required service launch s) service.apps)
          e (Agree-ids_of (is_setup_required service launch s) service.apps distinct))

-- As long as no id stands twice, the regular setup calls run_setup_on_app, one after the other in the
-- order of the apps, for exactly the apps that required setup when it began. When there are none it
-- creates no operation, although it then goes over the essential apps.
pub run_regular_setup_lem :
    {S : Type 0} (service : Service S) (launch : Request → Bool → M S (Unit {0})) (s : S)
    → AreDistinct (map (λ e. e.app.app_id) service.apps)
    → run_regular_setup service launch s
      ≡ for_each
          (launch_setup service launch true)
          (keep_if (is_setup_required service launch s) service.apps)
          s
unfolding run_regular_setup apps_for_regular_setup
run_regular_setup_lem service launch s distinct =
    regular_setup_of service launch (apps_for_regular_setup service launch s) s refl distinct
