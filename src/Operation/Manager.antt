-- ===== src/Operation/Manager.antt =====
-- class OperationsManager of plinth/operation.py. Each method holds the manager's lock from end to
-- end, so each is one step on the state that the threads share.
use freedom_box.Base.{
  ℕ, suc, String, Bool, true, false, Option, none, some, List, [], ◌∷◌, ◌++◌, ◌==◌, nat_eq, ◌&&◌,
  if◌then◌else◌, keep_if,
}
use freedom_box.Dict.{Dict, lookup, has_key, insert, remove, values}
use freedom_box.Operation.Defs.{
  Operation, State, Thread, Request, Notice, AppInfo, init, update_notification,
}

-- The heap of operations with the first free address, `_operations`, `_current_operation`, the
-- stored notifications, and the information of the registered apps.
pub record World : Type 0 where
  pub heap : ℕ → Operation
  pub next : ℕ
  pub operations : Dict ℕ
  pub current : Option ℕ
  pub notices : Dict Notice
  pub app_info : String → AppInfo

-- A write to an object on the heap.
abbrev pub update : (ℕ → Operation) → ℕ → Operation → ℕ → Operation
update h r op i = if nat_eq i r then op else h i

pub data Raises {ℓ} (A : Type ℓ) : Type ℓ where
  ok : A → Raises A
  key_error : Raises A

abbrev pub is_waiting : Operation → Bool
is_waiting op = elim op.state [ State.waiting ↦ true | _ ↦ false ]

abbrev pub is_completed : Operation → Bool
is_completed op = elim op.state [ State.completed ↦ true | _ ↦ false ]

-- The first operation that the loop of _schedule_next stops at.
unfoldable pub first_waiting : (ℕ → Operation) → Dict ℕ → Option ℕ
first_waiting h [] = none
first_waiting h ((k, r) ∷ d) = if is_waiting (h r) then some r else first_waiting h d

-- Operation.run: the thread is started.
unfoldable pub run : Operation → Operation
run op = record op { state = State.running; thread = Thread.started }

abbrev pub start_next : World → Option ℕ → World
start_next w none = w
start_next w (some r) = record w { heap = update w.heap r (run (w.heap r)); current = some r }

abbrev pub schedule_from : World → Option ℕ → World
schedule_from w (some r) = w
schedule_from w none = start_next w (first_waiting w.heap w.operations)

-- OperationsManager._schedule_next
unfoldable pub schedule_next : World → World
unfolding first_waiting run
schedule_next w = schedule_from w w.current

abbrev is_in_progress : (ℕ → Operation) → Option ℕ → Bool
is_in_progress h none = false
is_in_progress h (some r) = if is_completed (h r) then false else true

-- The new object of OperationsManager.new, in the list of operations.
unfoldable pub enlist : Request → World → World
unfolding init
enlist q w =
    let op = init q in
    record w {
      heap = update w.heap w.next op;
      next = suc w.next;
      operations = insert q.op_id w.next w.operations;
      notices = update_notification w.app_info op w.notices;
    }

-- OperationsManager.new
unfoldable pub new : Request → World → Raises ℕ × World
unfolding enlist schedule_next
new q w =
    if is_in_progress w.heap (lookup q.op_id w.operations)
    then (key_error, w)
    else (ok w.next, schedule_next (enlist q w))

abbrev or_key_error : Option ℕ → Raises ℕ
or_key_error none = key_error
or_key_error (some r) = ok r

-- OperationsManager.get
unfoldable pub get : String → World → Raises ℕ
get op_id w = or_key_error (lookup op_id w.operations)

-- The end of _on_operation_complete, by `show_message` and by whether the key is listed. The
-- deletion raises before the next operation is scheduled.
abbrev pub drop_and_schedule : Bool → Bool → String → World → Raises (Unit {0}) × World
drop_and_schedule true listed op_id w = (ok tt, schedule_next w)
drop_and_schedule false true op_id w =
    (ok tt, schedule_next (record w { operations = remove op_id w.operations }))
drop_and_schedule false false op_id w = (key_error, w)

-- OperationsManager._on_operation_complete
unfoldable pub on_operation_complete : ℕ → World → Raises (Unit {0}) × World
on_operation_complete r w =
    let op = w.heap r in
    drop_and_schedule op.show_message (has_key op.op_id w.operations) op.op_id
      (record w { current = none })

-- OperationsManager.filter
unfoldable pub filter : String → World → List ℕ
filter app_id w = keep_if (λ r. (w.heap r).app_id == app_id) (values w.operations)

abbrev pub is_finished_for : String → Operation → Bool
is_finished_for app_id op = op.app_id == app_id && is_completed op

-- The loop of collect_results with its two accumulators.
unfoldable pub collect : (ℕ → Operation) → String → List ℕ → List ℕ → Dict ℕ → List ℕ × Dict ℕ
collect h app_id [] results remaining = (results, remaining)
collect h app_id (r ∷ rs) results remaining =
    let finished = is_finished_for app_id (h r) in
    collect h app_id rs (if finished then results ++ r ∷ [] else results)
      (if finished then remaining else insert (h r).op_id r remaining)

abbrev pub keep_remaining : World → List ℕ → Dict ℕ → World
keep_remaining w [] remaining = w
keep_remaining w (r ∷ rs) remaining = record w { operations = remaining }

-- OperationsManager.collect_results
unfoldable pub collect_results : String → World → List ℕ × World
unfolding collect
collect_results app_id w =
    let (results, remaining) = collect w.heap app_id (values w.operations) [] [] in
    (results, keep_remaining w results remaining)
