-- ===== src/Actions/Binding.antt =====
-- How Python binds the arguments of a call to the parameters of a function, and that a call with
-- arguments that passed the check binds, with each value of the type of its parameter.
use freedom_box.Base.{
  ℕ, zero, suc, ◌-◌, ◌≤◌, String, ◌≡◌, refl, sym, ap, subst, Bool, true, false, Bool-cases, inl,
  inr, Option, Option-cases, none, some, some-injective, List, [], ◌∷◌, ◌==◌, eq_iff, eq_refl, ltb,
  arith, if◌then◌else◌, length, contains,
}
use freedom_box.Dict.{Dict, lookup, has_key}
use freedom_box.Actions.Values.{Value}
use freedom_box.Actions.Check.{
  Parameter, ArgSpec, names, index_of, annotation_of, is_valid_type, is_valid_for, has_required,
  is_valid_keyword, all_entries, are_valid_positional, are_valid_arguments,
}
use freedom_box.Actions.Typing.{HasType, is_valid_type_iff}

-- A parameter with its value, or with its default.
abbrev pub Binding : Type 0
Binding = List (Parameter × Option Value)

abbrev pub bind_one :
    Option Value → Parameter → Option Value → Bool → Option Binding → Option Binding
bind_one value p keyword has_default none = none
bind_one (some v) p (some w) has_default (some b) = none
bind_one (some v) p none has_default (some b) = some ((p, some v) ∷ b)
bind_one none p (some w) has_default (some b) = some ((p, some w) ∷ b)
bind_one none p none true (some b) = some ((p, none) ∷ b)
bind_one none p none false (some b) = none

-- Positional arguments go to the first parameters, keyword arguments to those of their name, and the
-- parameters behind the first `n` have defaults. It is a TypeError if a positional argument is left
-- over, or a parameter gets two values or none.
unfoldable pub bind_parameters : ℕ → List Parameter → List Value → Dict Value → Option Binding
bind_parameters n [] [] kwargs = some []
bind_parameters n [] (v ∷ vs) kwargs = none
bind_parameters zero (p ∷ ps) [] kwargs =
    bind_one none p (lookup p.name kwargs) true (bind_parameters zero ps [] kwargs)
bind_parameters (suc n) (p ∷ ps) [] kwargs =
    bind_one none p (lookup p.name kwargs) false (bind_parameters n ps [] kwargs)
bind_parameters zero (p ∷ ps) (v ∷ vs) kwargs =
    bind_one (some v) p (lookup p.name kwargs) true (bind_parameters zero ps vs kwargs)
bind_parameters (suc n) (p ∷ ps) (v ∷ vs) kwargs =
    bind_one (some v) p (lookup p.name kwargs) false (bind_parameters n ps vs kwargs)

abbrev pub all_named : List Parameter → Dict Value → Bool
all_named ps kwargs = all_entries (λ k v. contains k (names ps)) kwargs

-- It is a TypeError too if a keyword names no parameter.
unfoldable pub bind_arguments : ArgSpec → List Value → Dict Value → Option Binding
unfolding bind_parameters
bind_arguments spec args kwargs =
    if all_named spec.args kwargs
    then bind_parameters (length spec.args - spec.defaults) spec.args args kwargs
    else none

-- Each value is of the type of its parameter.
abbrev pub IsTyped : Binding → Type 0
IsTyped [] = Unit
IsTyped ((p, none) ∷ b) = IsTyped b
IsTyped ((p, some v) ∷ b) = HasType p.annotation v × IsTyped b

-- A binding that exists and is typed.
record Binds (o : Option Binding) : Type 0 where
  binding : Binding
  bound : o ≡ some binding
  typed : IsTyped binding

-- What holds of each parameter.
abbrev AllParameters : (Parameter → Type 0) → List Parameter → Type 0
AllParameters P [] = Unit
AllParameters P (p ∷ ps) = P p × AllParameters P ps

abbrev FirstParameters : (Parameter → Type 0) → ℕ → List Parameter → Type 0
FirstParameters P zero ps = Unit
FirstParameters P (suc n) [] = Unit
FirstParameters P (suc n) (p ∷ ps) = P p × FirstParameters P n ps

module _ (kwargs : Dict Value) where
  -- A keyword for the parameter has its type.
  abbrev IsFit : Parameter → Type 0
  IsFit p = (v : Value) → lookup p.name kwargs ≡ some v → is_valid_type p.annotation v ≡ true

  abbrev IsFree : Parameter → Type 0
  IsFree p = lookup p.name kwargs ≡ none

  Binds-positional :
      (p : Parameter) (v : Value) (b : Bool) (k : Option Value) (o : Option Binding)
      → k ≡ none
      → is_valid_type p.annotation v ≡ true
      → Binds o
      → Binds (bind_one (some v) p k b o)
  Binds-positional p v b (some w) o e h r = absurd (ground arith)
  Binds-positional p v b none none e h r = absurd (ground (arith, r.bound))
  Binds-positional p v b none (some l) e h r = record {
    binding = (p, some v) ∷ l;
    bound = refl;
    typed = (
      (is_valid_type_iff p.annotation v).0 h,
      subst IsTyped (sym (some-injective l r.binding r.bound)) r.typed,
    );
  }

  Binds-keyword :
      (p : Parameter) (b : Bool) (k : Option Value) (o : Option Binding)
      → ((v : Value) → k ≡ some v → is_valid_type p.annotation v ≡ true)
      → ((b ≡ false) → (v : Value) × (k ≡ some v))
      → Binds o
      → Binds (bind_one none p k b o)
  Binds-keyword p b k none fit there r = absurd (ground (arith, r.bound))
  Binds-keyword p b (some w) (some l) fit there r = record {
    binding = (p, some w) ∷ l;
    bound = refl;
    typed = (
      (is_valid_type_iff p.annotation w).0 (fit w refl),
      subst IsTyped (sym (some-injective l r.binding r.bound)) r.typed,
    );
  }
  Binds-keyword p true none (some l) fit there r = record {
    binding = (p, none) ∷ l;
    bound = refl;
    typed = subst IsTyped (sym (some-injective l r.binding r.bound)) r.typed;
  }
  Binds-keyword p false none (some l) fit there r = absurd (ground (arith, (there refl).1))

  has_required-zero : (n : ℕ) (ps : List Parameter) → has_required n zero ps kwargs ≡ true
  has_required-zero n [] = refl
  has_required-zero zero (p ∷ ps) = refl
  has_required-zero (suc n) (p ∷ ps) = refl

  lookup_of_key :
      (k : String) (d : Dict Value) → has_key k d ≡ true → (v : Value) × (lookup k d ≡ some v)
  lookup_of_key k [] h = absurd (ground arith)
  lookup_of_key k ((j, w) ∷ d) h = elim (Bool-cases (j == k)) [
    | inl same ↦ (w, rw same refl)
    | inr other ↦ let (v, e) = lookup_of_key k d (rw other at h) in (v, rw other e)
  ]

  -- The parameters behind the positional arguments.
  Binds-keywords :
      (n : ℕ) (ps : List Parameter)
      → AllParameters IsFit ps
      → has_required zero n ps kwargs ≡ true
      → Binds (bind_parameters n ps [] kwargs)
  unfolding bind_parameters
  Binds-keywords n [] fit there = record { binding = []; bound = refl; typed = tt }
  Binds-keywords zero (p ∷ ps) fit there =
      Binds-keyword p true (lookup p.name kwargs) _ fit.0 (λ e. absurd (ground (arith, e)))
        (Binds-keywords zero ps fit.1 (has_required-zero zero ps))
  Binds-keywords (suc n) (p ∷ ps) fit there =
      Binds-keyword p false (lookup p.name kwargs) _ fit.0
        (λ e. lookup_of_key p.name kwargs (ground arith)) (Binds-keywords n ps fit.1 (ground arith))

  Binds-parameters :
      (n : ℕ) (ps : List Parameter) (vs : List Value)
      → length vs ≤ length ps
      → AllParameters IsFit ps
      → FirstParameters IsFree (length vs) ps
      → has_required (length vs) n ps kwargs ≡ true
      → are_valid_positional ps vs ≡ true
      → Binds (bind_parameters n ps vs kwargs)
  unfolding bind_parameters
  Binds-parameters n ps [] room fit free there valid = Binds-keywords n ps fit there
  Binds-parameters n [] (v ∷ vs) room fit free there valid = absurd (ground arith)
  Binds-parameters zero (p ∷ ps) (v ∷ vs) room fit free there valid =
      Binds-positional p v true _ _ free.0 (ground arith) (
        Binds-parameters zero ps vs (omega arith) fit.1 free.1 (has_required-zero (length vs) ps)
          (ground arith))
  Binds-parameters (suc n) (p ∷ ps) (v ∷ vs) room fit free there valid =
      Binds-positional p v false _ _ free.0 (ground arith)
        (Binds-parameters n ps vs (omega arith) fit.1 free.1 there (ground arith))

-- No name stands twice, as Python demands of parameters.
abbrev pub AreDistinct : List Parameter → Type 0
AreDistinct [] = Unit
AreDistinct (p ∷ ps) = (contains p.name (names ps) ≡ false) × AreDistinct ps

lookup-all_entries :
    (f : String → Value → Bool) (d : Dict Value) (k : String) (v : Value)
    → all_entries f d ≡ true
    → lookup k d ≡ some v
    → f k v ≡ true
lookup-all_entries f [] k v h e = absurd (ground arith)
lookup-all_entries f ((j, w) ∷ d) k v h e = elim (Bool-cases (j == k)) [
  | inl same ↦
      let one : f j w ≡ true = ground arith in
      subst (λ x. f x v ≡ true) ((eq_iff j k).0 same)
        (subst (λ x. f j x ≡ true) (some-injective w v (rw same at e)) one)
  | inr other ↦ lookup-all_entries f d k v (ground arith) (rw other at e)
]

all_entries_weaken :
    (f g : String → Value → Bool) (d : Dict Value)
    → ((k : String) (v : Value) → f k v ≡ true → g k v ≡ true)
    → all_entries f d ≡ true
    → all_entries g d ≡ true
all_entries_weaken f g [] h e = refl
all_entries_weaken f g ((k, v) ∷ d) h e = ground (arith, h k v, all_entries_weaken f g d h)

-- Each parameter is found by its name.
annotation_of_behind :
    (p : Parameter) (all ps : List Parameter)
    → contains p.name (names ps) ≡ false
    → AllParameters (λ q. annotation_of q.name all ≡ some q.annotation) ps
    → AllParameters (λ q. annotation_of q.name (p ∷ all) ≡ some q.annotation) ps
annotation_of_behind p all [] new h = tt
annotation_of_behind p all (q ∷ ps) new h = (
  ground (arith, eq_iff p.name q.name, eq_refl q.name, h.0),
  annotation_of_behind p all ps (ground arith) h.1,
)

annotation_of_own :
    (ps : List Parameter)
    → AreDistinct ps
    → AllParameters (λ p. annotation_of p.name ps ≡ some p.annotation) ps
annotation_of_own [] d = tt
annotation_of_own (p ∷ ps) d =
    (rw (eq_refl p.name) refl, annotation_of_behind p ps ps d.0 (annotation_of_own ps d.1))

module _ (kwargs : Dict Value) where
  IsFit-of_keywords :
      (all ps : List Parameter) (n : ℕ)
      → all_entries (is_valid_keyword all n) kwargs ≡ true
      → AllParameters (λ p. annotation_of p.name all ≡ some p.annotation) ps
      → AllParameters (IsFit kwargs) ps
  IsFit-of_keywords all [] n h own = tt
  IsFit-of_keywords all (p ∷ ps) n h own = (
    λ v e.
        let valid = lookup-all_entries (is_valid_keyword all n) kwargs p.name v h e in
        let same = ap (λ a. is_valid_for a v) own.0 in ground (arith, valid, same),
    IsFit-of_keywords all ps n h own.1,
  )

  IsFree-of_indices :
      (n : ℕ) (ps : List Parameter)
      → ((k : String) (v : Value) → lookup k kwargs ≡ some v → ltb (index_of k ps) n ≡ false)
      → FirstParameters (IsFree kwargs) n ps
  IsFree-of_indices zero ps h = tt
  IsFree-of_indices (suc n) [] h = tt
  IsFree-of_indices (suc n) (p ∷ ps) h = (
    elim (Option-cases (lookup p.name kwargs)) [
      | inl e ↦ e
      | inr (v, e) ↦ absurd (ground (arith, h p.name v e, eq_refl p.name))
    ],
    IsFree-of_indices n ps (λ k v e. ground (arith, h k v e)),
  )

-- Arguments that pass the check bind to the parameters: the call raises no TypeError, and each
-- parameter has its default or a value of its type. No parameter name stands twice.
pub are_valid_arguments-IsTyped :
    (spec : ArgSpec) (args : List Value) (kwargs : Dict Value)
    → AreDistinct spec.args
    → are_valid_arguments spec args kwargs ≡ true
    → (b : Binding) × (bind_arguments spec args kwargs ≡ some b) × IsTyped b
unfolding are_valid_arguments bind_arguments
are_valid_arguments-IsTyped spec args kwargs distinct h =
    let ps = spec.args in
    let n = length args in
    let keywords : all_entries (is_valid_keyword ps n) kwargs ≡ true = ground arith in
    let named : all_named ps kwargs ≡ true =
      all_entries_weaken (is_valid_keyword ps n) _ kwargs (λ k v e. ground arith) keywords in
    let binds =
      Binds-parameters kwargs (length ps - spec.defaults) ps args (ground arith)
        (IsFit-of_keywords kwargs ps ps n keywords (annotation_of_own ps distinct))
        (IsFree-of_indices kwargs n ps (λ k v e.
          let valid = lookup-all_entries (is_valid_keyword ps n) kwargs k v keywords e in
          ground arith))
        (ground arith) (ground arith) in
    (binds.binding, rw named binds.bound, binds.typed)
