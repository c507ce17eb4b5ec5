-- ===== src/App/Lifecycle/Tests.antt =====
-- An app with an entry in the menu and a flag in the key-value store.
use freedom_box.Base.{String, ◌≡◌, refl, Bool, true, false, some, List, [], ◌∷◌}
use freedom_box.App.Lifecycle.Defs.{
  App, Component, DiagnosticCheck, failed, setup, uninstall, repair, checks_of, repair_all,
}
use freedom_box.App.Lifecycle.Store.{Store, follower, enable_state}
use freedom_box.App.Lifecycle.Undo.{uninstall-setup}

abbrev wiki : App Store
wiki = record {
  app_id = "wiki";
  version = 2;
  overrides_diagnose = false;
  components = ("menu", follower "menu") ∷ ("state", enable_state "wiki") ∷ [];
}

abbrev empty : Store
empty = record { flags = []; values = [] }

abbrev tail_of : List (String × Bool) → List (String × Bool)
tail_of [] = []
tail_of (x ∷ l) = l

-- A component that puts a value into the store, and takes it out again.
abbrev files : Component Store
files = record {
  is_leader = false;
  has_diagnostics = true;
  is_available = λ s. (some true, s);
  setup = λ v s. (some tt, record s { values = ("installed", true) ∷ s.values });
  uninstall = λ s. (some tt, record s { values = tail_of s.values });
  enable = λ s. (some tt, s);
  disable = λ s. (some tt, s);
  is_enabled = λ s. (some true, s);
  set_enabled = λ b s. (some tt, s);
  diagnose = λ s. (some [], s);
  repair = λ checks s. (some false, record s { values = [] });
}

abbrev blog : App Store
blog = record {
  app_id = "blog";
  version = 1;
  overrides_diagnose = false;
  components = ("menu", follower "menu") ∷ ("files", files) ∷ [];
}

uninstall-setup_example : uninstall blog (setup blog 0 empty).1 ≡ (some tt, empty)
unfolding setup follower
uninstall-setup_example =
    uninstall-setup blog 0 empty ((λ s done. refl), ((λ s done. refl), tt)) refl

abbrev missing_file : DiagnosticCheck
missing_file = record {
  check_id = "file-missing";
  description = "";
  result = failed;
  component_id = some "files";
}

repair_blog : repair blog (missing_file ∷ []) empty ≡ (some false, empty)
unfolding repair repair_all checks_of
repair_blog = refl
