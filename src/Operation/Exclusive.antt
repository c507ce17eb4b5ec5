-- ===== src/Operation/Exclusive.antt =====
-- What holds in every reachable state of the operations manager: one thread at a time.
use freedom_box.Base.{
  ℕ, suc, ◌≤◌, ◌<◌, String, ◌≡◌, refl, Bool, true, false, Option, none, some, [], ◌∷◌, arith,
}
use freedom_box.Dict.{Dict, insert, remove}
use freedom_box.Operation.Defs.{Operation, State, Thread, Request, Outcome}
use freedom_box.Operation.Manager.{
  World, update, first_waiting, run, schedule_next, schedule_from, start_next, enlist, new,
}
use freedom_box.Operation.Threads.{begin, on_update, finish, complete, write}

-- The thread has been started and is not over.
abbrev pub is_alive : Thread → Bool
is_alive Thread.started = true
is_alive Thread.in_target = true
is_alive Thread.in_callback = true
is_alive _ = false

-- The state that goes with each point of the thread's life.
abbrev pub agrees : State → Thread → Bool
agrees State.waiting Thread.unstarted = true
agrees State.running Thread.started = true
agrees State.running Thread.in_target = true
agrees State.completed Thread.in_callback = true
agrees State.completed Thread.ended = true
agrees _ _ = false

-- Every listed address has been allocated.
abbrev pub AllBelow : ℕ → Dict ℕ → Type 0
AllBelow n [] = Unit
AllBelow n ((k, r) ∷ d) = (r < n) × AllBelow n d

pub record IsExclusive (w : World) : Type 0 where
  pub consistent : (r : ℕ) → agrees (w.heap r).state (w.heap r).thread ≡ true
  pub alive : (r : ℕ) → is_alive (w.heap r).thread ≡ true → w.current ≡ some r
  pub running : (r : ℕ) → w.current ≡ some r → is_alive (w.heap r).thread ≡ true
  pub fresh : (r : ℕ) → w.next ≤ r → (w.heap r).thread ≡ Thread.unstarted
  pub bounded : AllBelow w.next w.operations

AllBelow-suc : (n : ℕ) (d : Dict ℕ) → AllBelow n d → AllBelow (suc n) d
AllBelow-suc n [] h = tt
AllBelow-suc n ((k, r) ∷ d) h = (omega arith, AllBelow-suc n d h.1)

pub AllBelow-insert :
    (n : ℕ) (k : String) (r : ℕ) (d : Dict ℕ) → r < n → AllBelow n d → AllBelow n (insert k r d)
AllBelow-insert n k r [] lt h = (lt, tt)
AllBelow-insert n k r ((j, s) ∷ d) lt h = ground (arith, AllBelow-insert n k r d lt)

pub AllBelow-remove : (n : ℕ) (k : String) (d : Dict ℕ) → AllBelow n d → AllBelow n (remove k d)
AllBelow-remove n k [] h = tt
AllBelow-remove n k ((j, s) ∷ d) h = ground (arith, AllBelow-remove n k d)

pub first_waiting-lt :
    (h : ℕ → Operation) (n : ℕ) (d : Dict ℕ) (r : ℕ)
    → first_waiting h d ≡ some r
    → AllBelow n d
    → r < n
unfolding first_waiting
first_waiting-lt h n [] r e b = cc
first_waiting-lt h n ((k, s) ∷ d) r e b = ground (arith, first_waiting-lt h n d r)

pub is_waiting-first_waiting :
    (h : ℕ → Operation) (d : Dict ℕ) (r : ℕ)
    → first_waiting h d ≡ some r
    → (h r).state ≡ State.waiting
unfolding first_waiting
is_waiting-first_waiting h [] r e = cc
is_waiting-first_waiting h ((k, s) ∷ d) r e = ground (arith, is_waiting-first_waiting h d r)

start_next-IsExclusive :
    (w : World) (o : Option ℕ)
    → first_waiting w.heap w.operations ≡ o
    → w.current ≡ none
    → IsExclusive w
    → IsExclusive (start_next w o)
unfolding run
start_next-IsExclusive w none f e v = v
start_next-IsExclusive w (some r) f e v = record {
  consistent = λ s. ground (arith, v.consistent s);
  alive = λ s. ground (arith, v.alive s);
  running = λ s. ground arith;
  fresh = λ s. ground (arith, v.fresh s, first_waiting-lt w.heap w.next w.operations r f v.bounded);
  bounded = v.bounded;
}

schedule_from-IsExclusive :
    (w : World) (c : Option ℕ) → w.current ≡ c → IsExclusive w → IsExclusive (schedule_from w c)
schedule_from-IsExclusive w (some r) e v = v
schedule_from-IsExclusive w none e v = start_next-IsExclusive w _ refl e v

pub schedule_next-IsExclusive : (w : World) → IsExclusive w → IsExclusive (schedule_next w)
unfolding schedule_next
schedule_next-IsExclusive w v = schedule_from-IsExclusive w w.current refl v

enlist-IsExclusive : (q : Request) (w : World) → IsExclusive w → IsExclusive (enlist q w)
unfolding enlist
enlist-IsExclusive q w v = record {
  consistent = λ s. ground (arith, v.consistent s);
  alive = λ s. ground (arith, v.alive s);
  running = λ s. ground (arith, v.running s, v.fresh s);
  fresh = λ s. ground (arith, v.fresh s);
  bounded =
      AllBelow-insert (suc w.next) q.op_id w.next w.operations (omega arith)
        (AllBelow-suc w.next w.operations v.bounded);
}

pub new-IsExclusive : (q : Request) (w : World) → IsExclusive w → IsExclusive (new q w).1
unfolding new
new-IsExclusive q w v =
    ground (arith, schedule_next-IsExclusive (enlist q w) (enlist-IsExclusive q w v))

-- A write to an operation whose thread stays alive, or stays as it is.
write-IsExclusive :
    (r : ℕ) (op : Operation) (w : World)
    → agrees op.state op.thread ≡ true
    → is_alive op.thread ≡ true
    → is_alive (w.heap r).thread ≡ true
    → IsExclusive w
    → IsExclusive (write r op w)
unfolding write
write-IsExclusive r op w a b c v = record {
  consistent = λ s. ground (arith, v.consistent s);
  alive = λ s. ground (arith, v.alive s, v.alive r);
  running = λ s. ground (arith, v.running s);
  fresh = λ s. ground (arith, v.fresh s, v.fresh r);
  bounded = v.bounded;
}

pub begin-IsExclusive :
    (r : ℕ) (w : World)
    → (w.heap r).thread ≡ Thread.started
    → IsExclusive w
    → IsExclusive (begin r w)
unfolding begin
begin-IsExclusive r w e v =
    write-IsExclusive r _ w (ground (arith, v.consistent r)) refl (ground arith) v

pub on_update-IsExclusive :
    (r : ℕ) (m x : Option String) (w : World)
    → (w.heap r).thread ≡ Thread.in_target
    → IsExclusive w
    → IsExclusive (on_update r m x w)
unfolding on_update
on_update-IsExclusive r m x w e v =
    write-IsExclusive r _ w (v.consistent r) (ground arith) (ground arith) v

pub finish-IsExclusive :
    (r : ℕ) (o : Outcome) (w : World)
    → (w.heap r).thread ≡ Thread.in_target
    → IsExclusive w
    → IsExclusive (finish r o w)
unfolding finish
finish-IsExclusive r (Outcome.returned x) w e v = write-IsExclusive r _ w refl refl (ground arith) v
finish-IsExclusive r (Outcome.raised x) w e v = write-IsExclusive r _ w refl refl (ground arith) v

-- The world after the callback has cleared the current operation, whatever is listed.
pub cleared : ℕ → Dict ℕ → World → World
cleared r d w = record w {
  heap = update w.heap r (record (w.heap r) { thread = Thread.ended });
  current = none;
  operations = d;
}

cleared-IsExclusive :
    (r : ℕ) (d : Dict ℕ) (w : World)
    → (w.heap r).thread ≡ Thread.in_callback
    → AllBelow w.next d
    → IsExclusive w
    → IsExclusive (cleared r d w)
unfolding cleared
cleared-IsExclusive r d w e b v = record {
  consistent = λ s. ground (arith, v.consistent s, v.consistent r);
  alive = λ s. ground (arith, v.alive s, v.alive r);
  running = λ s h. cc;
  fresh = λ s. ground (arith, v.fresh s, v.fresh r);
  bounded = b;
}

pub complete-IsExclusive :
    (r : ℕ) (w : World)
    → (w.heap r).thread ≡ Thread.in_callback
    → IsExclusive w
    → IsExclusive (complete r w).1
unfolding complete cleared
complete-IsExclusive r w e v =
    let kept = cleared-IsExclusive r w.operations w e v.bounded v in
    let gone =
      cleared-IsExclusive r (remove (w.heap r).op_id w.operations) w e
        (AllBelow-remove w.next (w.heap r).op_id w.operations v.bounded) v in
    ground (arith, kept, gone, schedule_next-IsExclusive _ kept, schedule_next-IsExclusive _ gone)
