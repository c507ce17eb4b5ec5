-- ===== src/Effect.antt =====
-- Calls that change a state and can raise: Python's methods on shared objects and external services.
use freedom_box.Base.{◌≡◌, refl, Option, none, some, List, [], ◌∷◌}

-- A call on a state: its result, or `none` if it raised, and the state after it.
abbrev pub M : Type 0 → Type 0 → Type 0
M R A = R → Option A × R

module _ {R A : Type 0} where
  abbrev pub pure : A → M R A
  pure a r = (some a, r)

  abbrev pub raise : M R A
  raise r = (none, r)

  abbrev pub or_raise : (R → Option A) → M R A
  or_raise f r = (f r, r)

module _ {R A B : Type 0} where
  abbrev pub continue : Option A → (A → M R B) → M R B
  continue none f r = (none, r)
  continue (some a) f r = f a r

  infixl 5 ◌>>=◌ ◌>>◌
  abbrev pub ◌>>=◌ : M R A → (A → M R B) → M R B
  ◌>>=◌ m f r = continue (m r).0 f (m r).1

  abbrev pub ◌>>◌ : M R A → M R B → M R B
  m >> n = m >>= λ _. n

  -- A call that returned made its first call return, and its second.
  pub continue-some :
      (o : Option A) (f : A → M R B) (r : R) {b : B}
      → (continue o f r).0 ≡ some b
      → (a : A) × (o ≡ some a) × ((f a r).0 ≡ some b)
  continue-some none f r e = cc
  continue-some (some a) f r e = (a, refl, e)

-- for x in xs: f(x)
module _ {A R : Type 0} where
  abbrev pub for_each : (A → M R (Unit {0})) → List A → M R (Unit {0})
  for_each f [] = pure tt
  for_each f (x ∷ xs) = f x >> for_each f xs
