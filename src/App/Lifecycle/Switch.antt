-- ===== src/App/Lifecycle/Switch.antt =====
-- Enabling and disabling an app, and what is_enabled says after it.
use freedom_box.Base.{
  ◌≡◌, refl, sym, subst, Bool, true, false, Bool-cases, inl, inr, some, List, [], ◌∷◌, ◌++◌, arith,
  keep_if, reverse, any,
}
use mathlib.Core.List.{reverse-cons}
use freedom_box.Dict.{values}
use freedom_box.Effect.{M, continue-some, for_each}
use freedom_box.App.Lifecycle.Defs.{Component, App, all_of, enable, disable, is_enabled}

module _ {S : Type 0} where
  -- Every component of the list has the property.
  abbrev pub AreAll : (Component S → Type 0) → List (Component S) → Type 0
  AreAll P [] = Unit
  AreAll P (c ∷ cs) = P c × AreAll P cs

  -- What a component says of its state: asking does not change it.
  abbrev pub Says : S → Bool → Component S → Type 0
  Says s b c = c.is_enabled s ≡ (some b, s)

module _ {S : Type 0} (switch : Component S → M S (Unit {0})) (b : Bool) where
  -- Switching leads to the state, and switching the components in `l` keeps it.
  pub record IsSwitch (l : List (Component S)) (c : Component S) : Type 0 where
    pub switches : (s : S) → (switch c s).0 ≡ some tt → Says (switch c s).1 b c
    pub kept :
        (s : S) → AreAll (λ d. (switch d s).0 ≡ some tt → Says s b c → Says (switch d s).1 b c) l

  -- Each leader is switched by its own call, and left so by the calls after it.
  abbrev pub AreSwitches : List (Component S) → Type 0
  AreSwitches [] = Unit
  AreSwitches (c ∷ l) = (c.is_leader ≡ true → IsSwitch l c) × AreSwitches l

  for_each-kept :
      (c : Component S) (l : List (Component S)) (s : S)
      → ((t : S) → AreAll (λ d. (switch d t).0 ≡ some tt → Says t b c → Says (switch d t).1 b c) l)
      → (for_each switch l s).0 ≡ some tt
      → Says s b c
      → Says (for_each switch l s).1 b c
  for_each-kept c [] s kept done said = said
  for_each-kept c (d ∷ l) s kept done said =
      let (_, one, more) =
        continue-some (switch d s).0 (λ _. for_each switch l) (switch d s).1 done in
      rw one (for_each-kept c l (switch d s).1 (λ t. (kept t).1) more ((kept s).0 one said))

  for_each-cons :
      (c : Component S) (l : List (Component S)) (s : S)
      → (switch c s).0 ≡ some tt
      → for_each switch (c ∷ l) s ≡ for_each switch l (switch c s).1
  for_each-cons c l s one = rw one refl

  pub for_each-switches :
      (l : List (Component S)) (s : S)
      → AreSwitches l
      → (for_each switch l s).0 ≡ some tt
      → AreAll (λ c. c.is_leader ≡ true → Says (for_each switch l s).1 b c) l
  for_each-switches [] s laws done = tt
  for_each-switches (c ∷ l) s laws done =
      let (_, one, more) =
        continue-some (switch c s).0 (λ _. for_each switch l) (switch c s).1 done in
      let e = for_each-cons c l s one in
      subst (λ p. AreAll (λ d. d.is_leader ≡ true → Says p.1 b d) (c ∷ l)) (sym e)
        (
          λ leader.
              let law = laws.0 leader in
              for_each-kept c l (switch c s).1 law.kept more (law.switches s one),
          for_each-switches l (switch c s).1 laws.1 more,
        )

module _ {S : Type 0} where
  all_of-true :
      (l : List (Component S)) (s : S)
      → AreAll (λ c. c.is_leader ≡ true → Says s true c) l
      → all_of (λ c. c.is_enabled) (keep_if (λ c. c.is_leader) l) s ≡ (some true, s)
  all_of-true [] s h = refl
  all_of-true (c ∷ l) s h = elim (Bool-cases c.is_leader) [
    | inl leader ↦ rw (leader, h.0 leader) (all_of-true l s h.1)
    | inr follower ↦ rw follower (all_of-true l s h.1)
  ]

  all_of-false :
      (l : List (Component S)) (s : S)
      → AreAll (λ c. c.is_leader ≡ true → Says s false c) l
      → any (λ c. c.is_leader) l ≡ true
      → all_of (λ c. c.is_enabled) (keep_if (λ c. c.is_leader) l) s ≡ (some false, s)
  all_of-false [] s h e = absurd (ground arith)
  all_of-false (c ∷ l) s h e = elim (Bool-cases c.is_leader) [
    | inl leader ↦ rw (leader, h.0 leader) refl
    | inr follower ↦ rw follower (all_of-false l s h.1 (rw follower at e))
  ]

-- When each leader's own `enable` makes it enabled, and the `enable` of the components after it leaves
-- it so: an app whose `enable` has returned is enabled.
pub is_enabled-enable :
    {S : Type 0} (app : App S) (s : S)
    → AreSwitches (λ c. c.enable) true (values app.components)
    → (enable app s).0 ≡ some tt
    → is_enabled app (enable app s).1 ≡ (some true, (enable app s).1)
unfolding enable is_enabled
is_enabled-enable app s laws done =
    all_of-true (values app.components) (enable app s).1
      (for_each-switches (λ c. c.enable) true (values app.components) s laws done)

module _ {S : Type 0} where
  AreAll-append :
      (P : Component S → Type 0) (k l : List (Component S))
      → AreAll P (k ++ l)
      → AreAll P k × AreAll P l
  AreAll-append P [] l h = (tt, h)
  AreAll-append P (c ∷ k) l h = ((h.0, (AreAll-append P k l h.1).0), (AreAll-append P k l h.1).1)

  AreAll-reverse :
      (P : Component S → Type 0) (l : List (Component S)) → AreAll P (reverse l) → AreAll P l
  AreAll-reverse P [] h = tt
  AreAll-reverse P (c ∷ l) h =
      let (rest, one) =
        AreAll-append P (reverse l) (c ∷ []) (subst (AreAll P) (reverse-cons c l) h) in
      (one.0, AreAll-reverse P l rest)

-- When each leader's own `disable` makes it disabled, and the `disable` of the components before it,
-- which come after it here, leaves it so: an app with a leader whose `disable` has returned is not
-- enabled.
pub is_enabled-disable :
    {S : Type 0} (app : App S) (s : S)
    → AreSwitches (λ c. c.disable) false (reverse (values app.components))
    → any (λ c. c.is_leader) (values app.components) ≡ true
    → (disable app s).0 ≡ some tt
    → is_enabled app (disable app s).1 ≡ (some false, (disable app s).1)
unfolding disable is_enabled
is_enabled-disable app s laws some_leader done =
    all_of-false (values app.components) (disable app s).1
      (AreAll-reverse _ (values app.components)
        (for_each-switches (λ c. c.disable) false (reverse (values app.components)) s laws done))
      some_leader
