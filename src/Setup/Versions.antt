-- ===== src/Setup/Versions.antt =====
-- Calls that leave the version of an app in the database alone, and calls that set it.
use Prim.Native.String.{◌++◌ as str_append}
use Prim.Native.String.append.{cons}
use freedom_box.Base.{
  ℕ, ◌≡◌, ◌∙◌, refl, sym, Bool, true, false, Bool-cases, inl, inr, ◌⊎◌, Option-cases, none, some,
  arith, ◌==◌, eq_iff, ap, String,
}
use freedom_box.Effect.{M, ◌>>◌, ◌>>=◌}

abbrev is_empty : String → Bool
is_empty String.[] = true
is_empty (String.◌∷◌ c s) = false

is_empty-append : (s t : String) → is_empty s ≡ false → is_empty (str_append s t) ≡ false
is_empty-append String.[] t e = absurd (ground arith)
is_empty-append (String.◌∷◌ c s) t e = λ i. is_empty (cons c s t i)

pub error_text : (e : String) → (str_append "Error uninstalling app: " e == "") ≡ false
error_text e = elim (Bool-cases (str_append "Error uninstalling app: " e == "")) [
  | inl empty ↦
      let h = (eq_iff (str_append "Error uninstalling app: " e) "").0 empty in
      let same : false ≡ true =
        sym (is_empty-append "Error uninstalling app: " e refl) ∙ ap is_empty h in
      absurd (ground arith)
  | inr other ↦ other
]

module _ {S : Type 0} (version : S → ℕ) where
  -- A call that leaves the version alone, raised or not.
  abbrev pub Keeps : {A : Type 0} → M S A → Type 0
  Keeps m = (s : S) → version (m s).1 ≡ version s

  -- A call that sets the version when it returns, and else leaves it alone.
  abbrev pub Sets : ℕ → M S (Unit {0}) → Type 0
  Sets v m =
      (s : S)
      → (((m s).0 ≡ some tt) × (version (m s).1 ≡ v))
        ⊎ (((m s).0 ≡ none) × (version (m s).1 ≡ version s))

  pub Sets-after : (v : ℕ) (m n : M S (Unit {0})) → Keeps m → Sets v n → Sets v (m >> n)
  Sets-after v m n keeps sets s = elim (Option-cases (m s).0) [
    | inl raised ↦ rw raised (inr (refl, keeps s))
    | inr (_, returned) ↦ rw (returned, ← keeps s) (sets (m s).1)
  ]

  pub Sets-before :
      (v : ℕ) (m : M S (Unit {0})) (f : S → S)
      → Sets v m
      → ((s : S) → version (f s) ≡ version s)
      → Sets v (m >> λ s. (some tt, f s))
  Sets-before v m f sets keeps s = elim (sets s) [
    | inl (returned, set) ↦ rw returned (inl (refl, keeps (m s).1 ∙ set))
    | inr (raised, same) ↦ rw raised (inr (refl, same))
  ]

  pub Keeps-after :
      {A B : Type 0} (m : M S A) (f : A → M S B)
      → Keeps m
      → ((a : A) → Keeps (f a))
      → Keeps (m >>= f)
  Keeps-after m f keeps after s = elim (Option-cases (m s).0) [
    | inl raised ↦ rw raised (keeps s)
    | inr (a, returned) ↦ rw returned (after a (m s).1 ∙ keeps s)
  ]
