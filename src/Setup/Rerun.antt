-- ===== src/Setup/Rerun.antt =====
-- When setup runs again after dpkg.
use freedom_box.Base.{
  String, ◌≡◌, ◌↔◌, refl, ap, Bool, true, false, Bool-cases, inl, inr, not, Option, none, some,
  List, [], ◌∷◌, arith,
}
use freedom_box.Dict.{Dict, lookup}
use freedom_box.Setup.Dpkg.{
  Cached, unknown, not_installed, installed, is_known, app_needs_setup_rerun, AppPackages, any_of,
  rerun_for, post_invoke_reruns,
}

module _ (cache : String → Cached) (known : Dict String) where
  -- A package that is installed in a version that was handled, and one in a version that was not.
  abbrev pub is_handled : String → Bool
  is_handled p = elim (cache p) [
    | unknown ↦ false
    | not_installed ↦ false
    | installed v ↦ is_known (lookup p known) v
  ]

  abbrev pub is_upgraded : String → Bool
  is_upgraded p = elim (cache p) [
    | unknown ↦ false
    | not_installed ↦ false
    | installed v ↦ not (is_known (lookup p known) v)
  ]

  -- Some package was upgraded, and all before it were handled.
  pub data FirstUpgraded : List String → Type 0 where
    here : {p : String} {ps : List String} → is_upgraded p ≡ true → FirstUpgraded (p ∷ ps)
    there :
        {p : String} {ps : List String}
        → is_handled p ≡ true
        → FirstUpgraded ps
        → FirstUpgraded (p ∷ ps)

  rerun-FirstUpgraded :
      (ps : List String) → app_needs_setup_rerun cache known ps ≡ true → FirstUpgraded ps
  unfolding app_needs_setup_rerun
  rerun-FirstUpgraded [] e = absurd (ground arith)
  rerun-FirstUpgraded (p ∷ ps) e = elim (Bool-cases (is_upgraded p)) [
    | inl upgraded ↦ here upgraded
    | inr same ↦ there (ground arith) (rerun-FirstUpgraded ps (ground arith))
  ]

  FirstUpgraded-rerun :
      (ps : List String) → FirstUpgraded ps → app_needs_setup_rerun cache known ps ≡ true
  unfolding app_needs_setup_rerun
  FirstUpgraded-rerun ps (here upgraded) = ground arith
  FirstUpgraded-rerun ps (there handled more) =
      let rest = FirstUpgraded-rerun _ more in ground arith

module _ (cache : String → Cached) (known : Dict String) where
  rerun_for-FirstUpgraded :
      (o : Option (List String))
      → rerun_for cache known o ≡ true
      → (ps : List String) × (o ≡ some ps) × FirstUpgraded cache known ps
  rerun_for-FirstUpgraded none e = absurd (ground arith)
  rerun_for-FirstUpgraded (some ps) e = (ps, refl, rerun-FirstUpgraded cache known ps e)

-- Setup runs again for an app after dpkg exactly when one of its package components asks for it, the
-- app does not need setup, none of its packages is missing, and one of them is installed in a version
-- that was not yet handled, where all before it are installed in the version that was.
pub post_invoke_reruns_iff :
    (cache : String → Cached) (known : Dict String) (app : AppPackages)
    → (post_invoke_reruns cache known app ≡ true) ↔ (
        (any_of app.rerun_setup_on_upgrade ≡ true)
        × (app.needs_setup ≡ false)
        × (ps : List String) × (app.packages ≡ some ps)
        × FirstUpgraded cache known ps)
unfolding post_invoke_reruns
post_invoke_reruns_iff cache known app = (
  λ e.
      let (ps, found, upgraded) = rerun_for-FirstUpgraded cache known app.packages (ground arith) in
      (ground arith, ground arith, ps, found, upgraded),
  λ (wanted, set_up, ps, found, upgraded).
      let rest = FirstUpgraded-rerun cache known ps upgraded in
      let same = ap (rerun_for cache known) found in ground arith,
)
