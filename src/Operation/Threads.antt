-- ===== src/Operation/Threads.antt =====
-- The steps that the threads of plinth/operation.py take on the shared state, and every order in
-- which they can follow one another. A callback is a step of its own: between the end of a target
-- and the callback's lock other threads can call the manager.
use freedom_box.Base.{ℕ, String, ◌≡◌, Option}
use freedom_box.Operation.Defs.{
  Operation, Thread, Request, Outcome, report_on, settle, update_notification,
}
use freedom_box.Operation.Manager.{
  World, Raises, update, new, on_operation_complete, collect_results,
}

-- A write to an operation, with the notification shown anew.
unfoldable pub write : ℕ → Operation → World → World
write r op w = record w {
  heap = update w.heap r op;
  notices = update_notification w.app_info op w.notices;
}

-- _catch_thread_errors up to the call of the target
unfoldable pub begin : ℕ → World → World
unfolding write
begin r w = write r (record (w.heap r) { thread = Thread.in_target }) w

-- Operation.on_update, called by the target
unfoldable pub on_update : ℕ → Option String → Option String → World → World
unfolding write report_on
on_update r message exception w = write r (report_on message exception (w.heap r)) w

-- _catch_thread_errors from the end of the target to the callback
unfoldable pub finish : ℕ → Outcome → World → World
unfolding write settle
finish r outcome w = write r (settle outcome (w.heap r)) w

-- The callback, after which the thread is over, also when it raised.
unfoldable pub complete : ℕ → World → Raises (Unit {0}) × World
unfolding on_operation_complete
complete r w =
    on_operation_complete r
      (record w { heap = update w.heap r (record (w.heap r) { thread = Thread.ended }) })

pub data Step (w : World) : World → Type 0 where
  create : (q : Request) → Step w (new q w).1
  start : (r : ℕ) → (w.heap r).thread ≡ Thread.started → Step w (begin r w)
  report :
      (r : ℕ) (m e : Option String)
      → (w.heap r).thread ≡ Thread.in_target
      → Step w (on_update r m e w)
  settle_target :
      (r : ℕ) (o : Outcome) → (w.heap r).thread ≡ Thread.in_target → Step w (finish r o w)
  call_back : (r : ℕ) → (w.heap r).thread ≡ Thread.in_callback → Step w (complete r w).1
  collect : (app_id : String) → Step w (collect_results app_id w).1

pub data Reach (w : World) : World → Type 0 where
  here : Reach w w
  later : {u v : World} → Reach w u → Step u v → Reach w v
