-- ===== src/Operation/Safety.antt =====
-- Every order of calls and thread steps keeps the invariant, so one thread runs at a time.
use freedom_box.Base.{ℕ, ◌<◌, String, ◌≡◌, refl, true, false, none, some, List, [], ◌∷◌, arith}
use freedom_box.Dict.{Dict, values}
use freedom_box.Operation.Defs.{Operation, Thread, Request, AppInfo, init}
use freedom_box.Operation.Manager.{
  World, collect as collect_loop, collect_results, keep_remaining, first_waiting,
}
use freedom_box.Operation.Threads.{
  Step, create, start, report, settle_target, call_back, collect, Reach, here, later,
}
use freedom_box.Operation.Exclusive.{
  is_alive, is_waiting-first_waiting, AllBelow, AllBelow-insert, IsExclusive, new-IsExclusive,
  begin-IsExclusive, on_update-IsExclusive, finish-IsExclusive, complete-IsExclusive,
}

-- The addresses of a list have been allocated.
abbrev AreBelow : ℕ → List ℕ → Type 0
AreBelow n [] = Unit
AreBelow n (r ∷ rs) = (r < n) × AreBelow n rs

AreBelow-values : (n : ℕ) (d : Dict ℕ) → AllBelow n d → AreBelow n (values d)
AreBelow-values n [] b = tt
AreBelow-values n ((k, r) ∷ d) b = (b.0, AreBelow-values n d b.1)

AllBelow-collect :
    (h : ℕ → Operation) (app_id : String) (n : ℕ) (rs results : List ℕ) (remaining : Dict ℕ)
    → AreBelow n rs
    → AllBelow n remaining
    → AllBelow n (collect_loop h app_id rs results remaining).1
unfolding collect_loop
AllBelow-collect h app_id n [] results remaining b c = c
AllBelow-collect h app_id n (r ∷ rs) results remaining b c =
    AllBelow-collect h app_id n rs _ _ b.1
      (ground (arith, AllBelow-insert n (h r).op_id r remaining b.0 c))

keep_remaining-IsExclusive :
    (w : World) (results : List ℕ) (remaining : Dict ℕ)
    → AllBelow w.next remaining
    → IsExclusive w
    → IsExclusive (keep_remaining w results remaining)
keep_remaining-IsExclusive w [] remaining b v = v
keep_remaining-IsExclusive w (r ∷ rs) remaining b v = record {
  consistent = v.consistent;
  alive = v.alive;
  running = v.running;
  fresh = v.fresh;
  bounded = b;
}

collect_results-IsExclusive :
    (app_id : String) (w : World) → IsExclusive w → IsExclusive (collect_results app_id w).1
unfolding collect_results
collect_results-IsExclusive app_id w v =
    keep_remaining-IsExclusive w _ _
      (AllBelow-collect w.heap app_id w.next (values w.operations) [] []
        (AreBelow-values w.next w.operations v.bounded) tt)
      v

pub Step-IsExclusive : {u w : World} → Step u w → IsExclusive u → IsExclusive w
Step-IsExclusive (create q) v = new-IsExclusive q _ v
Step-IsExclusive (start r e) v = begin-IsExclusive r _ e v
Step-IsExclusive (report r m x e) v = on_update-IsExclusive r m x _ e v
Step-IsExclusive (settle_target r o e) v = finish-IsExclusive r o _ e v
Step-IsExclusive (call_back r e) v = complete-IsExclusive r _ e v
Step-IsExclusive (collect app_id) v = collect_results-IsExclusive app_id _ v

-- From a state that keeps the invariant, every order of calls and thread steps keeps it: each
-- operation's state goes with its thread, the current operation is exactly the one whose thread is
-- alive, and listed operations are allocated.
pub Reach-IsExclusive : {u w : World} → IsExclusive u → Reach u w → IsExclusive w
Reach-IsExclusive v here = v
Reach-IsExclusive v (later r s) = Step-IsExclusive s (Reach-IsExclusive v r)

abbrev blank : Request
blank = record {
  op_id = "";
  app_id = "";
  name = "";
  show_message = true;
  show_notification = false;
}

-- OperationsManager.__init__, with nothing allocated
abbrev pub start_world : (String → AppInfo) → World
start_world app_info = record {
  heap = λ _. init blank;
  next = 0;
  operations = [];
  current = none;
  notices = [];
  app_info = app_info;
}

pub start_world-IsExclusive : (app_info : String → AppInfo) → IsExclusive (start_world app_info)
unfolding init
start_world-IsExclusive app_info = record {
  consistent = λ r. refl;
  alive = λ r h. cc;
  running = λ r h. cc;
  fresh = λ r h. refl;
  bounded = tt;
}

-- However calls and threads interleave after the manager is made, two threads of operations that
-- have started and are not over are the same thread.
pub one_at_a_time :
    (app_info : String → AppInfo) {w : World} (r s : ℕ)
    → Reach (start_world app_info) w
    → is_alive (w.heap r).thread ≡ true
    → is_alive (w.heap s).thread ≡ true
    → r ≡ s
one_at_a_time app_info r s reached a b =
    let v = Reach-IsExclusive (start_world-IsExclusive app_info) reached in
    cc (v.alive r a, v.alive s b)

-- However calls and threads interleave, the operation that _schedule_next picks has a thread that
-- was never started, as Thread.start needs.
pub started_once :
    (app_info : String → AppInfo) {w : World} (r : ℕ)
    → Reach (start_world app_info) w
    → first_waiting w.heap w.operations ≡ some r
    → (w.heap r).thread ≡ Thread.unstarted
started_once app_info {w} r reached e =
    let v = Reach-IsExclusive (start_world-IsExclusive app_info) reached in
    ground (arith, v.consistent r, is_waiting-first_waiting w.heap w.operations r e)
