-- ===== src/App/Order/Grows.antt =====
-- What one call of _insert_apps leaves true, and how calls follow one another.
use freedom_box.Base.{
  ◌≤◌, String, ◌≡◌, ◌≢◌, ◌⊎◌, inl, inr, ap, subst, ◌∙◌, true, false, Bool-cases, none, some, List,
  [], ◌∷◌, ◌++◌, arith, ◌==◌, eq_iff, contains, length,
}
use freedom_box.Dict.{Dict, lookup, remove}
use freedom_box.Dict.Laws.{lookup-remove, length-remove-le}
use freedom_box.App.Order.Defs.{Info, State}

abbrev pub AreAll : (String → Type 0) → List String → Type 0
AreAll P [] = Unit
AreAll P (x ∷ xs) = P x × AreAll P xs

abbrev pub DepsIn : List String → Info → Type 0
DepsIn seen info = AreAll (λ d. contains d seen ≡ true) info.depends

-- Each ID is an app's, stands once, and stands behind all that its app depends on.
abbrev pub IsOrdered : Dict Info → List String → List String → Type 0
IsOrdered apps seen [] = Unit
IsOrdered apps seen (x ∷ xs) =
    ((info : Info) × (lookup x apps ≡ some info) × DepsIn seen info)
    × (contains x seen ≡ false)
    × IsOrdered apps (seen ++ x ∷ []) xs

-- `remaining_apps` holds apps that are not in `ordered_apps`, which is in order.
pub record IsValid (apps : Dict Info) (s : State) : Type 0 where
  pub ordered : IsOrdered apps [] s.ordered
  pub known : (x : String) (i : Info) → lookup x s.remaining ≡ some i → lookup x apps ≡ some i
  pub apart : (x : String) (i : Info) → lookup x s.remaining ≡ some i → contains x s.ordered ≡ false

-- `s'` comes from `s` by calls that take apps from `remaining_apps`, each at most once, and append
-- some of them; but for what `P` leaves out, an ID that was in neither is in neither.
pub record Grows (P : String → Type 0) (s s' : State) : Type 0 where
  pub shrinks : length s'.remaining ≤ length s.remaining
  pub gone : (x : String) → lookup x s.remaining ≡ none → lookup x s'.remaining ≡ none
  pub stays : (x : String) → contains x s.ordered ≡ true → contains x s'.ordered ≡ true
  pub fresh :
      (x : String)
      → P x
      → contains x s.ordered ≡ false
      → lookup x s.remaining ≡ none
      → contains x s'.ordered ≡ false

-- Nothing is lost: what was taken from `remaining_apps` is in the list.
pub record Keeps (s s' : State) : Type 0 where
  pub kept :
      (x : String) (i : Info)
      → lookup x s.remaining ≡ some i
      → (contains x s'.ordered ≡ true) ⊎ (lookup x s'.remaining ≡ some i)

abbrev pub Any : String → Type 0
Any x = Unit

pub Grows-refl : (s : State) → Grows Any s s
Grows-refl s = record {
  shrinks = omega arith;
  gone = λ x h. h;
  stays = λ x h. h;
  fresh = λ x p h k. h;
}

pub Grows-trans : {s t u : State} → Grows Any s t → Grows Any t u → Grows Any s u
Grows-trans a b = record {
  shrinks = omega (arith, a.shrinks, b.shrinks);
  gone = λ x h. b.gone x (a.gone x h);
  stays = λ x h. b.stays x (a.stays x h);
  fresh = λ x p h k. b.fresh x tt (a.fresh x tt h k) (a.gone x k);
}

pub Keeps-refl : (s : State) → Keeps s s
Keeps-refl s = record { kept = λ x i e. inr e }

pub Keeps-trans : {s t u : State} → Keeps s t → Keeps t u → Grows Any t u → Keeps s u
Keeps-trans a b g = record {
  kept = λ x i e. elim (a.kept x i e) [
    | inl there ↦ inl (g.stays x there)
    | inr left ↦ b.kept x i left
  ];
}

-- The app `d` is taken from `remaining_apps`.
abbrev pub taken : String → State → State
taken d s = record s { remaining = remove d s.remaining }

pub taken-IsValid :
    {apps : Dict Info} (d : String) (s : State) → IsValid apps s → IsValid apps (taken d s)
taken-IsValid d s v = record {
  ordered = v.ordered;
  known = λ x i e. v.known x i (ground (arith, lookup-remove d x s.remaining));
  apart = λ x i e. v.apart x i (ground (arith, lookup-remove d x s.remaining));
}

-- A call for an app that was taken is a call that takes an app.
pub Grows-taken :
    (d : String) (i : Info) (s s' : State)
    → lookup d s.remaining ≡ some i
    → Grows (λ x. x ≢ d) (taken d s) s'
    → Grows Any s s'
Grows-taken d i s s' found g = record {
  shrinks = omega (arith, g.shrinks, length-remove-le d s.remaining);
  gone = λ x e. g.gone x (ground (arith, lookup-remove d x s.remaining));
  stays = g.stays;
  fresh = λ x p h e.
      g.fresh x (λ same. cc (ap (λ y. lookup y s.remaining) same)) h
        (ground (arith, lookup-remove d x s.remaining));
}

pub Keeps-taken :
    (d : String) (s s' : State) → contains d s'.ordered ≡ true → Keeps (taken d s) s' → Keeps s s'
Keeps-taken d s s' there k = record {
  kept = λ x i e. elim (Bool-cases (d == x)) [
    | inl same ↦ inl (subst (λ y. contains y s'.ordered ≡ true) ((eq_iff d x).0 same) there)
    | inr other ↦ k.kept x i (lookup-remove d x s.remaining ∙ rw other e)
  ];
}
