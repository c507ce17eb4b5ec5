-- ===== src/Diagnostics/Expected.antt =====
-- What a run of the diagnostics is to find, told app by app.
use freedom_box.Base.{
  String, ◌≡◌, refl, Bool, true, false, ◌&&◌, Option, none, some, List, [], ◌∷◌, any, contains, map,
}
use freedom_box.Dict.{Dict}
use freedom_box.App.Lifecycle.Defs.{DiagnosticCheck, Result, warning, failed}
use freedom_box.Diagnostics.Defs.{Diagnosed, AppResult, take_apps}

abbrev pub is_repairable : Result → Bool
is_repairable warning = true
is_repairable failed = true
is_repairable _ = false

module _ {S : Type 0} where
  abbrev pub ids_of : List (Diagnosed S) → List String
  ids_of = map (λ app. app.app_id)

  -- No two apps have the same id.
  abbrev pub HaveOwnIds : List (Diagnosed S) → Type 0
  HaveOwnIds [] = Unit {0}
  HaveOwnIds (app ∷ apps) = (contains app.app_id (ids_of apps) ≡ false) × HaveOwnIds apps

  -- The apps from a state to another, of which these are diagnosed: those that need no setup and for
  -- which `is_enabled` returns true, if they have diagnostics.
  pub data Taken : List (Diagnosed S) → S → List (Diagnosed S) → S → Type 0 where
    no_more : {s : S} → Taken [] s [] s
    without_setup :
        {app : Diagnosed S} {all apps : List (Diagnosed S)} {s t : S}
        → app.needs_setup s ≡ true
        → Taken all s apps t
        → Taken (app ∷ all) s apps t
    passed_over :
        {app : Diagnosed S} {all apps : List (Diagnosed S)} {s u t : S} {enabled : Bool}
        → app.needs_setup s ≡ false
        → app.is_enabled s ≡ (some enabled, u)
        → (enabled && app.has_diagnostics) ≡ false
        → Taken all u apps t
        → Taken (app ∷ all) s apps t
    taken :
        {app : Diagnosed S} {all apps : List (Diagnosed S)} {s u t : S}
        → app.needs_setup s ≡ false
        → app.is_enabled s ≡ (some true, u)
        → app.has_diagnostics ≡ true
        → Taken all u apps t
        → Taken (app ∷ all) s (app ∷ apps) t

  pub take_apps-Taken :
      (all apps : List (Diagnosed S)) (s t : S)
      → Taken all s apps t
      → take_apps all s ≡ (some apps, t)
  unfolding take_apps
  take_apps-Taken _ _ s t no_more = refl
  take_apps-Taken (app ∷ all) apps s t (without_setup new more) =
      rw (new, take_apps-Taken all apps s t more) refl
  take_apps-Taken (app ∷ all) apps s t (passed_over {u} set_up on off more) =
      rw (set_up, on, off, take_apps-Taken all apps u t more) refl
  take_apps-Taken (app ∷ all) (_ ∷ apps) s t (taken {u} set_up on has more) =
      rw (set_up, on, has, take_apps-Taken all apps u t more) refl

module _ {S : Type 0} (exception_text : S → String) where
  -- What an app's diagnosis, with the state that it leaves, is to give.
  abbrev pub expected : Option (List DiagnosticCheck) → S → AppResult
  expected none s = record {
    diagnosis = [];
    exception = some (exception_text s);
    show_repair = false;
  }
  expected (some checks) s = record {
    diagnosis = checks;
    exception = none;
    show_repair = any (λ check. is_repairable check.result) checks;
  }

  -- What the apps give, diagnosed one after the other, and the state after them.
  abbrev pub outcomes : List (Diagnosed S) → S → Dict (Option AppResult)
  outcomes [] s = []
  outcomes (app ∷ apps) s =
      let call = app.diagnose s in
      (app.app_id, some (expected call.0 call.1)) ∷ outcomes apps call.1

  abbrev pub state_after : List (Diagnosed S) → S → S
  state_after [] s = s
  state_after (app ∷ apps) s = state_after apps (app.diagnose s).1
