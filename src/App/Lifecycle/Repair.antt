-- ===== src/App/Lifecycle/Repair.antt =====
-- App.repair: which components are asked to repair what, and when setup is to run again.
use freedom_box.Base.{
  String, ◌≡◌, ◌≢◌, ◌↔◌, refl, sym, ap, subst, ◌∙◌, ◌⊎◌, Bool, not, ◌||◌, inl, inr, some, List, [],
  ◌∷◌, arith, any, some-injective,
}
use mathlib.Core.List.{cons≢nil}
use freedom_box.Dict.{Dict}
use freedom_box.Effect.{M, continue-some}
use freedom_box.App.Lifecycle.Defs.{
  Component, App, DiagnosticCheck, checks_of, repair_all, repair_one, repair, has_component,
}

-- A run over the components: the answers of those that have failed checks, each asked once, in their
-- order, with exactly its own.
pub data Answers {S : Type 0} (checks : List DiagnosticCheck)
    : Dict (Component S) → S → List Bool → S → Type 0 where
  end : {s : S} → Answers checks [] s [] s
  skip :
      {id : String} {c : Component S} {cs : Dict (Component S)} {s s' : S} {bs : List Bool}
      → checks_of id checks ≡ []
      → Answers checks cs s bs s'
      → Answers checks ((id, c) ∷ cs) s bs s'
  ask :
      {id : String} {c : Component S} {cs : Dict (Component S)} {s t s' : S} {b : Bool}
      {bs : List Bool}
      → checks_of id checks ≢ []
      → c.repair (checks_of id checks) s ≡ (some b, t)
      → Answers checks cs t bs s'
      → Answers checks ((id, c) ∷ cs) s (b ∷ bs) s'

abbrev pub any_of : List Bool → Bool
any_of = any (λ b. b)

or_assoc : (a b c : Bool) → (a || (b || c)) ≡ ((a || b) || c)
or_assoc a b c = ground arith

module _ {S : Type 0} (c : Component S) (go : Bool → M S Bool) where
  repair_one-ask :
      (l : List DiagnosticCheck) (rerun b : Bool) (s t : S)
      → l ≢ []
      → c.repair l s ≡ (some b, t)
      → repair_one c l rerun go s ≡ go (rerun || b) t
  repair_one-ask [] rerun b s t some_failed answer = absurd (some_failed refl)
  repair_one-ask (x ∷ l) rerun b s t some_failed answer = rw answer refl

  -- A call that returned `b`.
  repair_one-split :
      (l : List DiagnosticCheck) (rerun b : Bool) (s s' : S)
      → repair_one c l rerun go s ≡ (some b, s')
      → ((l ≡ []) × (go rerun s ≡ (some b, s')))
        ⊎ ((l ≢ [])
            × (r : Bool) × (t : S) × (c.repair l s ≡ (some r, t))
            × (go (rerun || r) t ≡ (some b, s')))
  repair_one-split [] rerun b s s' e = inl (refl, e)
  repair_one-split (x ∷ l) rerun b s s' e =
      let (r, one, _) =
        continue-some (c.repair (x ∷ l) s).0 (λ r. go (rerun || r)) (c.repair (x ∷ l) s).1
          (ap (λ p. p.0) e) in
      inr (
        cons≢nil,
        r,
        (c.repair (x ∷ l) s).1,
        ap (λ o. (o, (c.repair (x ∷ l) s).1)) one,
        rw one at e,
      )

module _ {S : Type 0} (checks : List DiagnosticCheck) where
  repair_all-Answers :
      (cs : Dict (Component S)) (s s' : S) (bs : List Bool) (rerun : Bool)
      → Answers checks cs s bs s'
      → repair_all checks cs rerun s ≡ (some (rerun || any_of bs), s')
  unfolding repair_all
  repair_all-Answers cs s s' bs rerun end = ground arith
  repair_all-Answers cs s s' bs rerun (skip none_failed more) =
      rw none_failed (repair_all-Answers _ _ s' _ rerun more)
  repair_all-Answers cs s s' bs rerun
        (ask {c = c} {cs = cs'} {t = t} {b = b} {bs = bs'} some_failed answer more) =
      repair_one-ask c (repair_all checks cs') _ rerun b s t some_failed answer
      ∙ repair_all-Answers cs' t s' bs' (rerun || b) more
      ∙ ap (λ x. (some x, s')) (sym (or_assoc rerun b (any_of bs')))

  Answers-repair_all :
      (cs : Dict (Component S)) (s s' : S) (b rerun : Bool)
      → repair_all checks cs rerun s ≡ (some b, s')
      → (bs : List Bool) × Answers checks cs s bs s' × (b ≡ (rerun || any_of bs))
  unfolding repair_all
  Answers-repair_all [] s s' b rerun e = (
    [],
    subst (λ t. Answers checks [] s [] t) (ap (λ p. p.1) e) end,
    ground (arith, some-injective rerun b (ap (λ p. p.0) e)),
  )
  Answers-repair_all ((id, c) ∷ cs) s s' b rerun e =
      elim (repair_one-split c (repair_all checks cs) (checks_of id checks) rerun b s s' e) [
        | inl (none_failed, rest) ↦
            let (bs, more, same) = Answers-repair_all cs s s' b rerun rest in
            (bs, skip none_failed more, same)
        | inr (some_failed, r, t, answer, rest) ↦
            let (bs, more, same) = Answers-repair_all cs t s' b (rerun || r) rest in
            (r ∷ bs, ask some_failed answer more, same ∙ sym (or_assoc rerun r (any_of bs)))
      ]

-- App.repair returns a value exactly when each component with failed checks, asked once and in order
-- with all of its own failed checks, answers; it is True when a failed check names no component or
-- one of the answers is True.
pub repair_lem :
    {S : Type 0} (app : App S) (checks : List DiagnosticCheck) (b : Bool) (s s' : S)
    → (repair app checks s ≡ (some b, s')) ↔ (
        (bs : List Bool) × Answers checks app.components s bs s'
        × (b ≡ (any (λ check. not (has_component check)) checks || any_of bs)))
unfolding repair
repair_lem app checks b s s' =
    let rerun = any (λ check. not (has_component check)) checks in
    (
      Answers-repair_all checks app.components s s' b rerun,
      λ h.
          repair_all-Answers checks app.components s s' h.0 rerun h.1
          ∙ ap (λ x. (some x, s')) (sym h.2),
    )
