-- ===== src/Operation/Replies.antt =====
-- What callers of the manager get: when `new` refuses, what `get` finds afterwards, when an operation
-- runs at once, and what `join` gives.
use freedom_box.Base.{
  ℕ, String, ◌≡◌, ◌≢◌, ◌↔◌, refl, ◌∙◌, Bool, true, false, Option, none, some, [], ◌∷◌, arith,
  eq_iff,
}
use freedom_box.Dict.{Dict, lookup, insert, remove}
use freedom_box.Dict.Laws.{lookup-insert, lookup-insert_self}
use freedom_box.Operation.Defs.{Operation, State, Thread, Request, Outcome, init, join}
use freedom_box.Operation.Manager.{
  World, ok, key_error, is_completed, is_waiting, update, first_waiting, run, schedule_next,
  schedule_from, start_next, new, enlist, get, drop_and_schedule,
}
use freedom_box.Operation.Threads.{finish, complete}
use freedom_box.Operation.Exclusive.{IsExclusive, AllBelow, is_waiting-first_waiting}

pub operations-schedule_next : (w : World) → (schedule_next w).operations ≡ w.operations
unfolding schedule_next
operations-schedule_next w = ground arith

-- `new` raises KeyError exactly when an operation with the ID is listed and is not completed, and
-- then it changes nothing.
pub new_refused_iff :
    (q : Request) (w : World)
    → (((new q w).0 ≡ key_error)
        ↔ ((r : ℕ) × (lookup q.op_id w.operations ≡ some r) × (is_completed (w.heap r) ≡ false)))
      × ((new q w).0 ≡ key_error → (new q w).1 ≡ w)
unfolding new
new_refused_iff q w = ((λ e. ground arith, λ h. ground (arith, h.1, h.2)), λ e. ground arith)

-- After `new` has returned an operation, `get` returns it for its ID, and what it returned before for
-- every other ID.
pub get-new :
    (q : Request) (w : World) (r : ℕ)
    → (new q w).0 ≡ ok r
    → (get q.op_id (new q w).1 ≡ ok r) × ((k : String) → k ≢ q.op_id → get k (new q w).1 ≡ get k w)
unfolding new get enlist
get-new q w r e = (
  ground (
    arith,
    operations-schedule_next (enlist q w),
    lookup-insert_self q.op_id w.next w.operations,
  ),
  λ k other. ground (
    arith,
    operations-schedule_next (enlist q w),
    lookup-insert q.op_id k w.next w.operations,
    eq_iff q.op_id k,
  ),
)

first_waiting-insert_new :
    (h : ℕ → Operation) (k : String) (r : ℕ) (d : Dict ℕ)
    → first_waiting h d ≡ none
    → is_waiting (h r) ≡ true
    → first_waiting h (insert k r d) ≡ some r
unfolding first_waiting
first_waiting-insert_new h k r [] e i = ground arith
first_waiting-insert_new h k r ((j, s) ∷ d) e i = ground (arith, first_waiting-insert_new h k r d)

pub first_waiting-update_new :
    (h : ℕ → Operation) (n : ℕ) (op : Operation) (d : Dict ℕ)
    → AllBelow n d
    → first_waiting (update h n op) d ≡ first_waiting h d
unfolding first_waiting
first_waiting-update_new h n op [] b = refl
first_waiting-update_new h n op ((k, r) ∷ d) b =
    ground (arith, first_waiting-update_new h n op d b.1, b.0)

-- When nothing is current and nothing waits, an operation that `new` accepts is running when `new`
-- returns.
pub new_runs_at_once :
    (q : Request) (w : World) (r : ℕ)
    → IsExclusive w
    → w.current ≡ none
    → first_waiting w.heap w.operations ≡ none
    → (new q w).0 ≡ ok r
    → ((new q w).1.current ≡ some r) × (((new q w).1.heap r).state ≡ State.running)
unfolding new enlist schedule_next init run
new_runs_at_once q w r v idle quiet e =
    let same = first_waiting-update_new w.heap w.next (init q) w.operations v.bounded in
    let found =
      first_waiting-insert_new (update w.heap w.next (init q)) q.op_id w.next w.operations
        (ground (arith, same)) (ground arith) in
    ground (arith, found)

-- What `join` gives for an outcome, when the target has or has not reported an exception before.
abbrev pub joined_outcome : Outcome → Option String → Outcome
joined_outcome (Outcome.returned v) (some e) = Outcome.raised e
joined_outcome o _ = o

-- Scheduling leaves an operation alone that is not waiting.
pub heap-schedule_from :
    (w : World) (c : Option ℕ) (r : ℕ)
    → is_waiting (w.heap r) ≡ false
    → (schedule_from w c).heap r ≡ w.heap r
heap-schedule_from w (some s) r i = refl
heap-schedule_from w none r i = go (first_waiting w.heap w.operations) refl
  where
    go : (o : Option ℕ) → first_waiting w.heap w.operations ≡ o → (start_next w o).heap r ≡ w.heap r
    go none e = refl
    go (some s) e = ground (arith, is_waiting-first_waiting w.heap w.operations s e)

pub heap-drop_and_schedule :
    (shown listed : Bool) (k : String) (w : World) (r : ℕ)
    → is_waiting (w.heap r) ≡ false
    → (drop_and_schedule shown listed k w).1.heap r ≡ w.heap r
unfolding schedule_next
heap-drop_and_schedule true listed k w r i = heap-schedule_from w w.current r i
heap-drop_and_schedule false true k w r i =
    heap-schedule_from (record w { operations = remove k w.operations }) w.current r i
heap-drop_and_schedule false false k w r i = refl

pub heap-complete :
    (r : ℕ) (w : World)
    → is_waiting (w.heap r) ≡ false
    → (complete r w).1.heap r ≡ record (w.heap r) { thread = Thread.ended }
unfolding complete
heap-complete r w i =
    let w' : World = record w {
      heap = update w.heap r (record (w.heap r) { thread = Thread.ended });
      current = none;
    } in
    heap-drop_and_schedule _ _ _ w' r (ground arith) ∙ ground arith

-- Once the target has ended and the callback has run, also where it raised, `join` gives what the
-- target raised, or the exception that it reported, or else what it returned.
pub join-complete :
    (r : ℕ) (o : Outcome) (w : World)
    → (w.heap r).thread ≡ Thread.in_target
    → join ((complete r (finish r o w)).1.heap r) ≡ some (joined_outcome o (w.heap r).exception)
unfolding finish join
join-complete r (Outcome.returned v) w e =
    rw (heap-complete r (finish r (Outcome.returned v) w) (ground arith)) (ground arith)
join-complete r (Outcome.raised x) w e =
    rw (heap-complete r (finish r (Outcome.raised x) w) (ground arith)) (ground arith)
