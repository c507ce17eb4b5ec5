-- ===== src/App/Order/Sort.antt =====
-- _sort_apps always ends, with the apps in an order in which each follows its dependencies.
use freedom_box.Base.{suc, String, ◌≡◌, refl, Option, none, some, List, [], ◌∷◌, arith, length}
use freedom_box.Dict.{Dict, lookup}
use freedom_box.Dict.Laws.{lookup-remove_self, length-remove-lt}
use freedom_box.App.Order.Defs.{
  Info, State, Outcome, done, key_error, out_of_fuel, insert_apps, caught, sort_one, sort_loop,
  sorted_ids, sort_apps,
}
use freedom_box.App.Order.Grows.{IsOrdered, IsValid, taken, taken-IsValid}
use freedom_box.App.Order.Insert.{After, insert_apps-IsCall}

abbrev pub start : Dict Info → State
start apps = record { remaining = apps; ordered = [] }

pub start-IsValid : (apps : Dict Info) → IsValid apps (start apps)
start-IsValid apps = record { ordered = tt; known = λ x i e. e; apart = λ x i e. refl }

-- The call that the loop makes for an app that is still there.
abbrev pub call_for : String → Info → State → Outcome
call_for id i s = insert_apps (suc (length s.remaining)) id i.depends (taken id s)

pub After-call_for :
    (apps : Dict Info) (id : String) (i : Info) (s : State)
    → IsValid apps s
    → lookup id s.remaining ≡ some i
    → After apps id (taken id s) (call_for id i s)
After-call_for apps id i s v found =
    insert_apps-IsCall apps (suc (length s.remaining)) id i (taken id s) (v.known id i found)
      (taken-IsValid id s v) (lookup-remove_self id s.remaining) (v.apart id i found)
      (omega (arith, length-remove-lt id i s.remaining found))

-- The loop went on with a state in order.
record Sorted (apps : Dict Info) (o : Option State) : Type 0 where
  state : State
  reached : o ≡ some state
  valid : IsValid apps state

Sorted-caught :
    (apps : Dict Info) (id : String) (s : State) (o : Outcome)
    → After apps id s o
    → Sorted apps (caught o)
Sorted-caught apps id s (done s') h = record { state = s'; reached = refl; valid = h.0 }
Sorted-caught apps id s (key_error s') h = record { state = s'; reached = refl; valid = h.0 }
Sorted-caught apps id s out_of_fuel h = elim h [ ]

Sorted-sort_one :
    (apps : Dict Info) (id : String) (s : State) (o : Option Info)
    → lookup id s.remaining ≡ o
    → IsValid apps s
    → Sorted apps (sort_one id s o)
Sorted-sort_one apps id s none e v = record { state = s; reached = refl; valid = v }
Sorted-sort_one apps id s (some i) e v =
    Sorted-caught apps id (taken id s) _ (After-call_for apps id i s v e)

Sorted-sort_loop :
    (apps : Dict Info) (ids : List String) (s : State)
    → IsValid apps s
    → Sorted apps (sort_loop ids s)
unfolding sort_loop
Sorted-sort_loop apps [] s v = record { state = s; reached = refl; valid = v }
Sorted-sort_loop apps (id ∷ ids) s v =
    let one = Sorted-sort_one apps id s _ refl v in
    let more = Sorted-sort_loop apps ids one.state one.valid in
    record { state = more.state; reached = rw one.reached more.reached; valid = more.valid }

-- Whatever the apps depend on, missing apps and cycles included, the sort ends, and in its list each
-- ID is an app's, stands once, and stands behind everything that its app depends on.
pub sort_apps-IsOrdered :
    (apps : Dict Info) → (s : State) × (sort_apps apps ≡ some s) × IsOrdered apps [] s.ordered
unfolding sort_apps
sort_apps-IsOrdered apps =
    let sorted = Sorted-sort_loop apps (sorted_ids apps) (start apps) (start-IsValid apps) in
    (sorted.state, sorted.reached, sorted.valid.ordered)
