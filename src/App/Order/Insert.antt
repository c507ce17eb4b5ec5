-- ===== src/App/Order/Insert.antt =====
-- _insert_apps: with one unit of fuel more than there are apps remaining it ends, it keeps the list
-- in order, and where it raises no KeyError its app and all of its dependencies are in the list.
use freedom_box.Base.{
  ℕ, zero, suc, ◌≤◌, ◌<◌, String, ◌≡◌, ◌≢◌, inl, inr, true, false, Bool-cases, Option-cases, none,
  some, List, [], ◌∷◌, ◌++◌, arith, ◌==◌, ◌||◌, eq_iff, eq_refl, contains, contains-append, length,
}
use mathlib.Core.List.{append_assoc, append-nil}
use freedom_box.Dict.{Dict, lookup}
use freedom_box.Dict.Laws.{lookup-remove_self, length-remove-lt}
use freedom_box.App.Order.Defs.{
  Info, State, Outcome, done, key_error, out_of_fuel, append_id, and_then, insert_all, insert_apps,
}
use freedom_box.App.Order.Grows.{
  AreAll, DepsIn, IsOrdered, IsValid, Grows, Keeps, Any, Grows-refl, Grows-trans, Keeps-refl,
  Keeps-trans, taken, taken-IsValid, Grows-taken, Keeps-taken,
}

IsOrdered-snoc :
    (apps : Dict Info) (seen xs : List String) (x : String) (i : Info)
    → lookup x apps ≡ some i
    → DepsIn (seen ++ xs) i
    → contains x (seen ++ xs) ≡ false
    → IsOrdered apps seen xs
    → IsOrdered apps seen (xs ++ x ∷ [])
IsOrdered-snoc apps seen [] x i e d u v = ((i, e, rw append-nil at d), rw append-nil at u, tt)
IsOrdered-snoc apps seen (y ∷ ys) x i e d u v = (
  v.0,
  v.1,
  IsOrdered-snoc apps (seen ++ y ∷ []) ys x i e (rw append_assoc d) (rw append_assoc u) v.2,
)

-- What a call for the app `d` guarantees.
abbrev pub After : Dict Info → String → State → Outcome → Type 0
After apps d s (done s') =
    IsValid apps s' × Grows (λ x. x ≢ d) s s' × Keeps s s' × (contains d s'.ordered ≡ true)
After apps d s (key_error s') = IsValid apps s' × Grows (λ x. x ≢ d) s s'
After apps d s out_of_fuel = ⊥

-- What the loop over the dependencies guarantees.
abbrev pub AfterAll : Dict Info → List String → State → Outcome → Type 0
AfterAll apps ds s (done s') =
    IsValid apps s' × Grows Any s s' × Keeps s s' × AreAll (λ d. contains d s'.ordered ≡ true) ds
AfterAll apps ds s (key_error s') = IsValid apps s' × Grows Any s s'
AfterAll apps ds s out_of_fuel = ⊥

abbrev pub IsCall : Dict Info → ℕ → (String → List String → State → Outcome) → Type 0
IsCall apps fuel call =
    (d : String) (i : Info) (s : State)
    → lookup d apps ≡ some i
    → IsValid apps s
    → lookup d s.remaining ≡ none
    → contains d s.ordered ≡ false
    → length s.remaining < fuel
    → After apps d s (call d i.depends s)

module _ (apps : Dict Info) (fuel : ℕ) (call : String → List String → State → Outcome)
    (is_call : IsCall apps fuel call) where
  -- One dependency more in front, once it is in the list.
  AfterAll-cons :
      (d : String) (ds : List String) (s s₁ : State) (o : Outcome)
      → Grows Any s s₁
      → Keeps s s₁
      → contains d s₁.ordered ≡ true
      → AfterAll apps ds s₁ o
      → AfterAll apps (d ∷ ds) s o
  AfterAll-cons d ds s s₁ (done s') g k there (v, g', k', rest) =
      (v, Grows-trans g g', Keeps-trans k k' g', (g'.stays d there, rest))
  AfterAll-cons d ds s s₁ (key_error s') g k there (v, g') = (v, Grows-trans g g')
  AfterAll-cons d ds s s₁ out_of_fuel g k there h = elim h [ ]

  AfterAll-call :
      (d : String) (i : Info) (ds : List String) (s : State) (o : Outcome)
      → lookup d s.remaining ≡ some i
      → After apps d (taken d s) o
      → ((s₁ : State)
          → IsValid apps s₁
          → length s₁.remaining ≤ fuel
          → AfterAll apps ds s₁ (insert_all call ds s₁))
      → length s.remaining ≤ fuel
      → AfterAll apps (d ∷ ds) s (and_then o (insert_all call ds))
  AfterAll-call d i ds s (done s₁) found (v, g, k, there) ih room =
      let g' = Grows-taken d i s s₁ found g in
      AfterAll-cons d ds s s₁ (insert_all call ds s₁) g' (Keeps-taken d s s₁ there k) there
        (ih s₁ v (omega (arith, g'.shrinks)))
  AfterAll-call d i ds s (key_error s₁) found (v, g) ih room = (v, Grows-taken d i s s₁ found g)
  AfterAll-call d i ds s out_of_fuel found h ih room = elim h [ ]

  insert_all-AfterAll :
      (ds : List String) (s : State)
      → IsValid apps s
      → length s.remaining ≤ fuel
      → AfterAll apps ds s (insert_all call ds s)
  unfolding insert_all
  insert_all-AfterAll [] s v room = (v, Grows-refl s, Keeps-refl s, tt)
  insert_all-AfterAll (d ∷ ds) s v room = elim (Bool-cases (contains d s.ordered)) [
    | inl there ↦ rw there (
        AfterAll-cons d ds s s _ (Grows-refl s) (Keeps-refl s) there
          (insert_all-AfterAll ds s v room))
    | inr absent ↦ elim (Option-cases (lookup d s.remaining)) [
      | inl none_left ↦ rw (absent, none_left) (v, Grows-refl s)
      | inr (i, found) ↦
          rw (absent, found)
            (AfterAll-call d i ds s _ found
              (is_call d i (taken d s) (v.known d i found) (taken-IsValid d s v)
                (lookup-remove_self d s.remaining) absent
                (omega (arith, length-remove-lt d i s.remaining found)))
              (insert_all-AfterAll ds) room)
    ]
  ]

contains-snoc :
    (x id : String) (xs : List String) → contains x (xs ++ id ∷ []) ≡ (contains x xs || id == x)
contains-snoc x id xs = ground (arith, contains-append x xs (id ∷ []))

-- Appending the app itself after its dependencies.
After-append :
    (apps : Dict Info) (id : String) (i : Info) (s : State) (o : Outcome)
    → lookup id apps ≡ some i
    → lookup id s.remaining ≡ none
    → contains id s.ordered ≡ false
    → AfterAll apps i.depends s o
    → After apps id s (and_then o (append_id id))
After-append apps id i s out_of_fuel e gone absent h = elim h [ ]
After-append apps id i s (key_error s') e gone absent (v, g) =
    (v, record { shrinks = g.shrinks; gone = g.gone; stays = g.stays; fresh = λ x p. g.fresh x tt })
After-append apps id i s (done s') e gone absent (v, g, k, deps) = (
  record {
    ordered = IsOrdered-snoc apps [] s'.ordered id i e deps (g.fresh id tt absent gone) v.ordered;
    known = v.known;
    apart = λ x j found.
        ground
          (arith, v.apart x j found, contains-snoc x id s'.ordered, eq_iff id x, g.gone id gone);
  },
  record {
    shrinks = g.shrinks;
    gone = g.gone;
    stays = λ x there. ground (arith, g.stays x there, contains-snoc x id s'.ordered);
    fresh = λ x other out left. ground (
      arith,
      g.fresh x tt out left,
      contains-snoc x id s'.ordered,
      eq_iff id x,
      eq_iff x id,
      other,
    );
  },
  record {
    kept = λ x j found. elim (k.kept x j found) [
      | inl there ↦ inl (ground (arith, contains-snoc x id s'.ordered))
      | inr left ↦ inr left
    ];
  },
  ground (arith, contains-snoc id id s'.ordered, eq_refl id),
)

-- With more fuel than there are apps remaining, a call for an app that is neither remaining nor in the
-- list, from lists in order, ends with lists in order; where it raises no KeyError, its app is in the
-- list then and no app that was remaining is lost.
pub insert_apps-IsCall : (apps : Dict Info) (fuel : ℕ) → IsCall apps fuel (insert_apps fuel)
unfolding insert_apps
insert_apps-IsCall apps zero d i s e v gone absent room = elim room [ ]
insert_apps-IsCall apps (suc fuel) d i s e v gone absent room = rw absent (
    After-append apps d i s _ e gone absent (
      insert_all-AfterAll apps fuel (insert_apps fuel) (insert_apps-IsCall apps fuel) i.depends s v
        (omega arith)))
