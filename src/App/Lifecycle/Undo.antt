-- ===== src/App/Lifecycle/Undo.antt =====
-- Uninstalling an app takes its setup back, in the reverse order.
use freedom_box.Base.{
  ℕ, ◌≡◌, refl, ◌∙◌, ap, some, List, [], ◌∷◌, ◌++◌, reverse, Option-cases, inl, inr,
}
use mathlib.Core.List.{reverse-cons}
use freedom_box.Dict.{values}
use freedom_box.Effect.{M, continue, continue-some, for_each}
use freedom_box.App.Lifecycle.Defs.{Component, App, setup, uninstall}
use freedom_box.App.Lifecycle.Switch.{AreAll}

module _ {S A : Type 0} (f : A → M S (Unit {0})) where
  for_each-append :
      (k l : List A) (s : S)
      → for_each f (k ++ l) s ≡ continue (for_each f k s).0 (λ _. for_each f l) (for_each f k s).1
  for_each-append [] l s = refl
  for_each-append (x ∷ k) l s = elim (Option-cases (f x s).0) [
    | inl raised ↦ rw raised refl
    | inr (_, one) ↦ rw one (for_each-append k l (f x s).1)
  ]

module _ {S : Type 0} where
  -- The call takes back what the other has done.
  abbrev pub Undoes : M S (Unit {0}) → M S (Unit {0}) → Type 0
  Undoes undo redo = (s : S) → (redo s).0 ≡ some tt → undo (redo s).1 ≡ (some tt, s)

module _ {S : Type 0} (redo undo : Component S → M S (Unit {0})) where
  for_each-undo :
      (l : List (Component S)) (s : S)
      → AreAll (λ c. Undoes (undo c) (redo c)) l
      → (for_each redo l s).0 ≡ some tt
      → for_each undo (reverse l) (for_each redo l s).1 ≡ (some tt, s)
  for_each-undo [] s laws done = refl
  for_each-undo (c ∷ l) s laws done =
      let (_, one, more) = continue-some (redo c s).0 (λ _. for_each redo l) (redo c s).1 done in
      let t = (for_each redo l (redo c s).1).1 in
      let rest = for_each-undo l (redo c s).1 laws.1 more in
      rw one (
        ap (λ k. for_each undo k t) (reverse-cons c l)
        ∙ for_each-append undo (reverse l) (c ∷ []) t
        ∙ rw (rest, laws.0 s one) refl)

-- When the `uninstall` of each component takes back its `setup`: uninstalling an app whose setup has
-- returned raises nothing and leads back to the state before the setup.
pub uninstall-setup :
    {S : Type 0} (app : App S) (old_version : ℕ) (s : S)
    → AreAll (λ c. Undoes c.uninstall (c.setup old_version)) (values app.components)
    → (setup app old_version s).0 ≡ some tt
    → uninstall app (setup app old_version s).1 ≡ (some tt, s)
unfolding setup uninstall
uninstall-setup app old_version s laws done =
    for_each-undo (λ c. c.setup old_version) (λ c. c.uninstall) (values app.components) s laws done
