-- ===== src/Operation/Races.antt =====
-- A call of `new` in the window between the end of a target, which marks the operation completed
-- without the manager's lock, and the callback of its thread.
use freedom_box.Base.{
  ℕ, String, ◌≡◌, refl, ◌∙◌, true, false, Option, none, some, [], ◌∷◌, arith, eq_iff, eq_refl,
  nat_eq_refl,
}
use freedom_box.Dict.{Dict, lookup, has_key, insert, remove}
use freedom_box.Dict.Laws.{has_key-insert, lookup-remove_self}
use freedom_box.Operation.Defs.{Operation, State, Thread, Request, init}
use freedom_box.Operation.Manager.{
  World, ok, key_error, is_waiting, update, first_waiting, schedule_next, schedule_from, start_next,
  new, enlist, drop_and_schedule,
}
use freedom_box.Operation.Threads.{complete}
use freedom_box.Operation.Exclusive.{
  IsExclusive, AllBelow, AllBelow-remove, is_waiting-first_waiting, first_waiting-lt,
}
use freedom_box.Operation.Replies.{operations-schedule_next}

first_waiting-update_idle :
    (h : ℕ → Operation) (r : ℕ) (op : Operation) (d : Dict ℕ)
    → is_waiting (h r) ≡ false
    → is_waiting op ≡ false
    → first_waiting (update h r op) d ≡ first_waiting h d
unfolding first_waiting
first_waiting-update_idle h r op [] i j = refl
first_waiting-update_idle h r op ((k, s) ∷ d) i j =
    ground (arith, first_waiting-update_idle h r op d i j)

-- The world in which the callback has cleared the current operation and its thread is over.
abbrev cleared : ℕ → World → World
cleared r w = record w {
  heap = update w.heap r (record (w.heap r) { thread = Thread.ended });
  current = none;
}

complete-cleared :
    (r : ℕ) (w : World)
    → complete r w
      ≡ drop_and_schedule
          (w.heap r).show_message
          (has_key (w.heap r).op_id w.operations)
          (w.heap r).op_id
          (cleared r w)
unfolding complete
complete-cleared r w = rw (nat_eq_refl r)

-- If the callback of an operation that shows no message finds its ID no longer listed, it raises
-- KeyError, nothing is current any more, and a waiting operation is left waiting.
pub callback_raises :
    (r s : ℕ) (w : World)
    → (w.heap r).thread ≡ Thread.in_callback
    → (w.heap r).state ≡ State.completed
    → (w.heap r).show_message ≡ false
    → has_key (w.heap r).op_id w.operations ≡ false
    → first_waiting w.heap w.operations ≡ some s
    → ((complete r w).0 ≡ key_error)
      × ((complete r w).1.current ≡ none)
      × (first_waiting (complete r w).1.heap (complete r w).1.operations ≡ some s)
      × (((complete r w).1.heap s).thread ≡ (w.heap s).thread)
callback_raises r s w t c m k f =
    rw (complete-cleared r w, m, k)
      (
        refl,
        refl,
        first_waiting-update_idle w.heap r _ w.operations (ground arith) (ground arith) ∙ f,
        ground (arith, is_waiting-first_waiting w.heap w.operations s f),
      )

AllBelow-remove-insert :
    (n r : ℕ) (k : String) (d : Dict ℕ) → AllBelow n d → AllBelow n (remove k (insert k r d))
AllBelow-remove-insert n r k [] b = ground (arith, eq_refl k)
AllBelow-remove-insert n r k ((j, s) ∷ d) b =
    ground (arith, AllBelow-remove-insert n r k d b.1, AllBelow-remove n k d b.1, eq_iff j k)

-- Scheduling leaves an operation alone that is above every listed one.
heap-schedule_next_unlisted :
    (n : ℕ) (w : World) → AllBelow n w.operations → (schedule_next w).heap n ≡ w.heap n
unfolding schedule_next
heap-schedule_next_unlisted n w b = go w.current
  where
    start :
        (o : Option ℕ) → first_waiting w.heap w.operations ≡ o → (start_next w o).heap n ≡ w.heap n
    start none e = refl
    start (some s) e = ground (arith, first_waiting-lt w.heap n w.operations s e b)

    go : (c : Option ℕ) → (schedule_from w c).heap n ≡ w.heap n
    go (some s) = refl
    go none = start _ refl

module _ (r : ℕ) (q : Request) (w : World) (v : IsExclusive w)
    (t : (w.heap r).thread ≡ Thread.in_callback) (m : (w.heap r).show_message ≡ false)
    (o : (w.heap r).op_id ≡ q.op_id) (l : lookup q.op_id w.operations ≡ some r) where
  new-eq-enlist : new q w ≡ (ok w.next, enlist q w)
  unfolding new enlist
  new-eq-enlist = ground (arith, v.consistent r, v.alive r)

  heap-enlist : (enlist q w).heap r ≡ w.heap r
  unfolding enlist
  heap-enlist = ground (arith, v.fresh r)

  abbrev dropped : World
  dropped = record (cleared r (enlist q w)) { operations = remove q.op_id (enlist q w).operations }

  has_key-enlist : has_key q.op_id (enlist q w).operations ≡ true
  unfolding enlist
  has_key-enlist = has_key-insert q.op_id w.next w.operations

  complete-enlist : complete r (enlist q w) ≡ (ok tt, schedule_next dropped)
  complete-enlist = complete-cleared r (enlist q w) ∙ simp (heap-enlist, m, o, has_key-enlist)

  unlisted : AllBelow w.next dropped.operations
  unfolding enlist
  unlisted = AllBelow-remove-insert w.next w.next q.op_id w.operations v.bounded

  heap-dropped :
      ((dropped.heap w.next).state ≡ State.waiting)
      × ((dropped.heap w.next).thread ≡ Thread.unstarted)
  unfolding enlist init
  heap-dropped = ground (arith, v.fresh r)

-- If `new` is called in the window, with the ID of a completed operation that shows no message and
-- whose callback is to come, it returns a new operation, but the callback then takes that one off the
-- list: no key leads to its ID, and it waits with a thread that was never started.
pub callback_drops_new :
    (r : ℕ) (q : Request) (w : World)
    → IsExclusive w
    → (w.heap r).thread ≡ Thread.in_callback
    → (w.heap r).show_message ≡ false
    → (w.heap r).op_id ≡ q.op_id
    → lookup q.op_id w.operations ≡ some r
    → ((new q w).0 ≡ ok w.next)
      × (lookup q.op_id (complete r (new q w).1).1.operations ≡ none)
      × (((complete r (new q w).1).1.heap w.next).state ≡ State.waiting)
      × (((complete r (new q w).1).1.heap w.next).thread ≡ Thread.unstarted)
callback_drops_new r q w v t m o l =
    let left = heap-dropped r q w v t m o l in
    rw
      (
        new-eq-enlist r q w v t m o l,
        complete-enlist r q w v t m o l,
        operations-schedule_next (dropped r q w v t m o l),
        heap-schedule_next_unlisted w.next (dropped r q w v t m o l) (unlisted r q w v t m o l),
      )
      (refl, lookup-remove_self q.op_id (enlist q w).operations, left.0, left.1)
