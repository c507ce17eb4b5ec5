-- ===== src/App/Order/Defs.antt =====
-- The functions, with the dictionary and the list that they change. What was changed before a
-- KeyError stays changed, so the state comes back beside the error.
use freedom_box.Base.{
  ℕ, zero, suc, String, Bool, true, false, not, Option, none, some, List, [], ◌∷◌, ◌++◌,
  if◌then◌else◌, contains, length,
}
use freedom_box.Dict.{Dict, lookup, insert, remove}

-- The properties of the Info component that the order depends on.
pub record Info : Type 0 where
  pub is_essential : Bool
  pub depends : List String

-- `remaining_apps` and `ordered_apps`
pub record State : Type 0 where
  pub remaining : Dict Info
  pub ordered : List String

pub data Outcome : Type 0 where
  done key_error : State → Outcome
  out_of_fuel : Outcome

abbrev pub and_then : Outcome → (State → Outcome) → Outcome
and_then (done s) f = f s
and_then (key_error s) f = key_error s
and_then out_of_fuel f = out_of_fuel

abbrev pub append_id : String → State → Outcome
append_id id s = done (record s { ordered = s.ordered ++ id ∷ [] })

-- remaining_apps.pop(dependency), and the call for the app that it gives
abbrev pub pop_and_call :
    (String → List String → State → Outcome) → String → State → Option Info → Outcome
pop_and_call call d s none = key_error s
pop_and_call call d s (some info) =
    call d info.depends (record s { remaining = remove d s.remaining })

-- The loop over the dependencies, where `call` is the recursive call.
unfoldable pub insert_all : (String → List String → State → Outcome) → List String → State → Outcome
insert_all call [] s = done s
insert_all call (d ∷ ds) s =
    if contains d s.ordered
    then insert_all call ds s
    else and_then (pop_and_call call d s (lookup d s.remaining)) (insert_all call ds)

-- _insert_apps
unfoldable pub insert_apps : ℕ → String → List String → State → Outcome
unfolding insert_all
insert_apps zero id depends s = out_of_fuel
insert_apps (suc fuel) id depends s =
    if contains id s.ordered
    then done s
    else and_then (insert_all (insert_apps fuel) depends s) (append_id id)

-- `except KeyError` in _sort_apps
abbrev pub caught : Outcome → Option State
caught (done s) = some s
caught (key_error s) = some s
caught out_of_fuel = none

abbrev pub sort_one : String → State → Option Info → Option State
sort_one id s none = some s
sort_one id s (some info) = caught (
    insert_apps (suc (length s.remaining)) id info.depends
      (record s { remaining = remove id s.remaining }))

abbrev pub or_stop : Option State → (State → Option State) → Option State
or_stop none f = none
or_stop (some s) f = f s

-- The loop of _sort_apps
unfoldable pub sort_loop : List String → State → Option State
sort_loop [] s = some s
sort_loop (id ∷ ids) s = or_stop (sort_one id s (lookup id s.remaining)) (sort_loop ids)

-- The IDs of the apps that are, or are not, essential, in load order.
abbrev pub ids_if : Bool → Dict Info → List String
ids_if b [] = []
ids_if b ((id, info) ∷ apps) =
    let rest = ids_if b apps in
    if (if b then info.is_essential else not info.is_essential) then id ∷ rest else rest

-- sorted(apps, key=not is_essential), which is stable
unfoldable pub sorted_ids : Dict Info → List String
sorted_ids apps = ids_if true apps ++ ids_if false apps

-- The list `ordered_modules` at the end of _sort_apps
unfoldable pub sort_apps : Dict Info → Option State
unfolding sorted_ids sort_loop insert_apps
sort_apps apps = sort_loop (sorted_ids apps) (record { remaining = apps; ordered = [] })

abbrev pub take_app : Dict Info → String → Option Info → Dict Info → Dict Info
take_app apps id none all = all
take_app apps id (some info) all = insert id info all

-- The new `App._all_apps`, from the list.
unfoldable pub new_all_apps : Dict Info → List String → Dict Info → Dict Info
new_all_apps apps [] all = all
new_all_apps apps (id ∷ ids) all = new_all_apps apps ids (take_app apps id (lookup id apps) all)
