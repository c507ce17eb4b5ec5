-- ===== src/App/Lifecycle/Store.antt =====
-- FollowerComponent and EnableState of plinth/app.py, over the attribute `_is_enabled` of each follower
-- and the key-value store.
use freedom_box.Base.{String, Bool, true, false, Option, none, some, []}
use Prim.Native.String.{◌++◌ as str_append}
use freedom_box.Dict.{Dict, lookup, insert}
use freedom_box.Effect.{M, pure}
use freedom_box.App.Lifecycle.Defs.{Component}

-- `_is_enabled` by component ID, and the values of plinth.kvstore.
pub record Store : Type 0 where
  pub flags : Dict Bool
  pub values : Dict Bool

abbrev or_false : Option Bool → Bool
or_false none = false
or_false (some b) = b

-- FollowerComponent.is_enabled, set_enabled, enable and disable
unfoldable pub is_flag_set : String → Store → Bool
is_flag_set id s = or_false (lookup id s.flags)

unfoldable pub set_flag : String → Bool → M Store (Unit {0})
set_flag id b s = (some tt, record s { flags = insert id b s.flags })

-- Component, FollowerComponent: what a follower does when its class overrides nothing
unfoldable pub follower : String → Component Store
unfolding is_flag_set set_flag
follower id = record {
  is_leader = false;
  has_diagnostics = false;
  is_available = pure true;
  setup = λ old_version. pure tt;
  uninstall = pure tt;
  enable = set_flag id true;
  disable = set_flag id false;
  is_enabled = λ s. (some (is_flag_set id s), s);
  set_enabled = set_flag id;
  diagnose = pure [];
  repair = λ checks. pure true;
}

-- EnableState.key
abbrev pub key : String → String
key app_id = str_append app_id "_enable"

-- EnableState.is_enabled, and enable and disable
unfoldable pub is_value_set : String → Store → Bool
is_value_set app_id s = or_false (lookup (key app_id) s.values)

unfoldable pub set_value : String → Bool → M Store (Unit {0})
set_value app_id b s = (some tt, record s { values = insert (key app_id) b s.values })

-- EnableState of the app; a leader has no `set_enabled`, which raises.
unfoldable pub enable_state : String → Component Store
unfolding is_value_set set_value
enable_state app_id = record {
  is_leader = true;
  has_diagnostics = false;
  is_available = pure true;
  setup = λ old_version. pure tt;
  uninstall = pure tt;
  enable = set_value app_id true;
  disable = set_value app_id false;
  is_enabled = λ s. (some (is_value_set app_id s), s);
  set_enabled = λ enabled s. (none, s);
  diagnose = pure [];
  repair = λ checks. pure true;
}
