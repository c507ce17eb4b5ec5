-- ===== src/App/Order/Complete.antt =====
-- Where the dependencies are all there and have no cycle, no app is left out.
use freedom_box.Base.{
  ℕ, zero, suc, ◌≤◌, ◌<◌, String, ◌≡◌, ◌⊎◌, inl, inr, refl, ap, subst, ◌∙◌, true, false, Bool-cases,
  none, some, List, [], ◌∷◌, ◌++◌, arith, ◌==◌, eq_iff, contains, length,
}
use freedom_box.Dict.{Dict, lookup}
use freedom_box.Dict.Laws.{lookup-remove, lookup-remove_self, length-remove-lt}
use freedom_box.App.Order.Defs.{Info, State, Outcome, done, and_then, insert_all, insert_apps}
use freedom_box.App.Order.Grows.{
  AreAll, IsValid, Grows, Keeps, Any, taken, taken-IsValid, Grows-taken, Keeps-taken,
}
use freedom_box.App.Order.Insert.{After, IsCall, insert_apps-IsCall}

-- `rank` puts every dependency, which is an app, below the app, so there is no cycle.
abbrev pub IsRanked : (String → ℕ) → Dict Info → Type 0
IsRanked rank apps =
    (x : String) (i : Info)
    → lookup x apps ≡ some i
    → AreAll (λ d. ((j : Info) × (lookup d apps ≡ some j)) × (rank d < rank x)) i.depends

module _ (rank : String → ℕ) (apps : Dict Info) (ranked : IsRanked rank apps) where
  -- The apps below `n` are in the list or still to be taken.
  abbrev pub Has : ℕ → State → Type 0
  Has n s =
      (x : String) (j : Info)
      → lookup x apps ≡ some j
      → rank x < n
      → (contains x s.ordered ≡ true) ⊎ (lookup x s.remaining ≡ some j)

  abbrev pub IsDone : Outcome → Type 0
  IsDone o = (s : State) × (o ≡ done s)

  pub Has-Keeps : (n : ℕ) (s s' : State) → Grows Any s s' → Keeps s s' → Has n s → Has n s'
  Has-Keeps n s s' g k h x j e lt = elim (h x j e lt) [
    | inl there ↦ inl (g.stays x there)
    | inr left ↦ k.kept x j left
  ]

  pub Has-taken : (n : ℕ) (d : String) (s : State) → rank d < n → Has n s → Has (rank d) (taken d s)
  Has-taken n d s below h x j e lt = elim (h x j e (omega arith)) [
    | inl there ↦ inl there
    | inr left ↦ elim (Bool-cases (d == x)) [
      | inl same ↦ absurd (omega (arith, ap rank ((eq_iff d x).0 same)))
      | inr other ↦ inr (lookup-remove d x s.remaining ∙ rw other left)
    ]
  ]

  -- What the loop asks of its dependencies: apps of a lower rank.
  abbrev pub AreBelow : ℕ → List String → Type 0
  AreBelow n = AreAll (λ d. ((j : Info) × (lookup d apps ≡ some j)) × (rank d < n))

  -- A call for an app of rank below `n` is done where the lower apps are to hand.
  abbrev pub IsDoneCall : ℕ → (String → List String → State → Outcome) → Type 0
  IsDoneCall fuel call =
      (d : String) (i : Info) (s : State)
      → lookup d apps ≡ some i
      → IsValid apps s
      → lookup d s.remaining ≡ none
      → contains d s.ordered ≡ false
      → length s.remaining < fuel
      → Has (rank d) s
      → IsDone (call d i.depends s)

  module _ (n fuel : ℕ) (call : String → List String → State → Outcome)
      (is_call : IsCall apps fuel call) (is_done : IsDoneCall fuel call) where
    IsDone-call :
        (d : String) (i : Info) (ds : List String) (s : State)
        → lookup d s.remaining ≡ some i
        → contains d s.ordered ≡ false
        → IsValid apps s
        → length s.remaining ≤ fuel
        → Has n s
        → rank d < n
        → ((s₁ : State)
            → IsValid apps s₁
            → length s₁.remaining ≤ fuel
            → Has n s₁
            → IsDone (insert_all call ds s₁))
        → IsDone (and_then (call d i.depends (taken d s)) (insert_all call ds))
    IsDone-call d i ds s found absent v room h below ih =
        let room' : length (taken d s).remaining < fuel =
          omega (arith, length-remove-lt d i s.remaining found) in
        let known = v.known d i found in
        let v₀ = taken-IsValid d s v in
        let gone = lookup-remove_self d s.remaining in
        let (s₁, e) =
          is_done d i (taken d s) known v₀ gone absent room' (Has-taken n d s below h) in
        let (v₁, g, k, there) =
          subst (After apps d (taken d s)) e (is_call d i (taken d s) known v₀ gone absent room') in
        let g' = Grows-taken d i s s₁ found g in
        rw e (
          ih s₁ v₁ (omega (arith, g'.shrinks)) (Has-Keeps n s s₁ g' (Keeps-taken d s s₁ there k) h))

    IsDone-insert_all :
        (ds : List String) (s : State)
        → AreBelow n ds
        → IsValid apps s
        → length s.remaining ≤ fuel
        → Has n s
        → IsDone (insert_all call ds s)
    unfolding insert_all
    IsDone-insert_all [] s b v room h = (s, refl)
    IsDone-insert_all (d ∷ ds) s b v room h = elim (Bool-cases (contains d s.ordered)) [
      | inl there ↦ rw there (IsDone-insert_all ds s b.1 v room h)
      | inr absent ↦
          let ((j, is_app), below) = b.0 in
          elim (h d j is_app below) [
            | inl there ↦ absurd (ground arith)
            | inr found ↦
                rw (absent, found)
                  (IsDone-call d j ds s found absent v room h below
                    (λ s₁ v₁ room₁ h₁. IsDone-insert_all ds s₁ b.1 v₁ room₁ h₁))
          ]
    ]

  pub insert_apps-IsDoneCall : (fuel : ℕ) → IsDoneCall fuel (insert_apps fuel)
  unfolding insert_apps
  insert_apps-IsDoneCall zero d i s e v gone absent room h = elim room [ ]
  insert_apps-IsDoneCall (suc fuel) d i s e v gone absent room h =
      let (s', e') =
        IsDone-insert_all (rank d) fuel (insert_apps fuel) (insert_apps-IsCall apps fuel)
          (insert_apps-IsDoneCall fuel) i.depends s (ranked d i e) v (omega arith) h in
      (record s' { ordered = s'.ordered ++ d ∷ [] }, rw (absent, e'))
