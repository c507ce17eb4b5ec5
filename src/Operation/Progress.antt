-- ===== src/Operation/Progress.antt =====
-- The manager never idles while a listed operation waits, unless a callback raises.
use freedom_box.Base.{
  ℕ, String, ◌≡◌, refl, Bool, true, false, Option, none, some, List, [], ◌∷◌, arith,
}
use freedom_box.Dict.{Dict, insert, values}
use freedom_box.Operation.Defs.{Operation, Request, AppInfo}
use freedom_box.Operation.Manager.{
  World, ok, collect as collect_loop, collect_results, keep_remaining, first_waiting, is_waiting,
  schedule_next, schedule_from, start_next, new, enlist, drop_and_schedule,
}
use freedom_box.Operation.Threads.{
  Step, create, start, report, settle_target, call_back, collect, Reach, here, later, begin,
  on_update, finish, complete,
}
use freedom_box.Operation.Exclusive.{IsExclusive}
use freedom_box.Operation.Safety.{Reach-IsExclusive, start_world, start_world-IsExclusive}

-- If no operation is current, no listed operation is waiting.
abbrev pub IsBusy : World → Type 0
IsBusy w = w.current ≡ none → first_waiting w.heap w.operations ≡ none

start_next-IsBusy :
    (w : World) (o : Option ℕ) → first_waiting w.heap w.operations ≡ o → IsBusy (start_next w o)
start_next-IsBusy w none f = λ e. f
start_next-IsBusy w (some r) f = λ e. cc

schedule_from-IsBusy : (w : World) (c : Option ℕ) → w.current ≡ c → IsBusy (schedule_from w c)
schedule_from-IsBusy w (some r) e = λ c. cc
schedule_from-IsBusy w none e = start_next-IsBusy w _ refl

schedule_next-IsBusy : (w : World) → IsBusy (schedule_next w)
unfolding schedule_next
schedule_next-IsBusy w = schedule_from-IsBusy w w.current refl

new-IsBusy : (q : Request) (w : World) → IsBusy w → IsBusy (new q w).1
unfolding new
new-IsBusy q w v = ground (arith, schedule_next-IsBusy (enlist q w))

abbrev AreIdle : (ℕ → Operation) → List ℕ → Type 0
AreIdle h [] = Unit
AreIdle h (r ∷ rs) = (is_waiting (h r) ≡ false) × AreIdle h rs

AreIdle-values : (h : ℕ → Operation) (d : Dict ℕ) → first_waiting h d ≡ none → AreIdle h (values d)
unfolding first_waiting
AreIdle-values h [] e = tt
AreIdle-values h ((k, r) ∷ d) e = ground (arith, AreIdle-values h d)

first_waiting-insert :
    (h : ℕ → Operation) (k : String) (r : ℕ) (d : Dict ℕ)
    → is_waiting (h r) ≡ false
    → first_waiting h d ≡ none
    → first_waiting h (insert k r d) ≡ none
unfolding first_waiting
first_waiting-insert h k r [] i e = ground arith
first_waiting-insert h k r ((j, s) ∷ d) i e = ground (arith, first_waiting-insert h k r d)

first_waiting-collect :
    (h : ℕ → Operation) (app_id : String) (rs results : List ℕ) (remaining : Dict ℕ)
    → AreIdle h rs
    → first_waiting h remaining ≡ none
    → first_waiting h (collect_loop h app_id rs results remaining).1 ≡ none
unfolding collect_loop
first_waiting-collect h app_id [] results remaining i e = e
first_waiting-collect h app_id (r ∷ rs) results remaining i e =
    first_waiting-collect h app_id rs _ _ i.1
      (ground (arith, first_waiting-insert h (h r).op_id r remaining i.0 e))

keep_remaining-IsBusy :
    (w : World) (results : List ℕ) (remaining : Dict ℕ)
    → (w.current ≡ none → first_waiting w.heap remaining ≡ none)
    → IsBusy w
    → IsBusy (keep_remaining w results remaining)
keep_remaining-IsBusy w [] remaining b v = v
keep_remaining-IsBusy w (r ∷ rs) remaining b v = b

collect_results-IsBusy :
    (app_id : String) (w : World) → IsBusy w → IsBusy (collect_results app_id w).1
unfolding collect_results first_waiting
collect_results-IsBusy app_id w v =
    keep_remaining-IsBusy w _ _
      (λ e.
        first_waiting-collect w.heap app_id (values w.operations) [] []
          (AreIdle-values w.heap w.operations (v e)) refl)
      v

drop_and_schedule-IsBusy :
    (shown listed : Bool) (k : String) (w : World)
    → (drop_and_schedule shown listed k w).0 ≡ ok tt
    → IsBusy (drop_and_schedule shown listed k w).1
drop_and_schedule-IsBusy true listed k w e = schedule_next-IsBusy w
drop_and_schedule-IsBusy false true k w e = schedule_next-IsBusy _
drop_and_schedule-IsBusy false false k w e = cc

complete-IsBusy : (r : ℕ) (w : World) → (complete r w).0 ≡ ok tt → IsBusy (complete r w).1
unfolding complete
complete-IsBusy r w e = drop_and_schedule-IsBusy _ _ _ _ e

-- A callback in this step returned.
abbrev pub Returns : {u w : World} → Step u w → Type 0
Returns {u} (call_back r e) = (complete r u).0 ≡ ok tt
Returns _ = Unit

abbrev pub ReturnsAll : {u w : World} → Reach u w → Type 0
ReturnsAll here = Unit
ReturnsAll (later r s) = ReturnsAll r × Returns s

Step-IsBusy : {u w : World} (s : Step u w) → Returns s → IsExclusive u → IsBusy u → IsBusy w
unfolding begin on_update finish
Step-IsBusy (create q) t x v = new-IsBusy q _ v
Step-IsBusy {u} (start r e) t x v = λ c. absurd (ground (arith, x.alive r))
Step-IsBusy {u} (report r m o e) t x v = λ c. absurd (ground (arith, x.alive r))
Step-IsBusy {u} (settle_target r o e) t x v = λ c. absurd (ground (arith, x.alive r))
Step-IsBusy (call_back r e) t x v = complete-IsBusy r _ t
Step-IsBusy (collect app_id) t x v = collect_results-IsBusy app_id _ v

Reach-IsBusy :
    {u w : World} (reached : Reach u w) → ReturnsAll reached → IsExclusive u → IsBusy u → IsBusy w
Reach-IsBusy here t x v = v
Reach-IsBusy (later r s) t x v = Step-IsBusy s t.1 (Reach-IsExclusive x r) (Reach-IsBusy r t.0 x v)

-- However calls and threads interleave after the manager is made, while no callback raises: when no
-- operation is current, no operation in the list is waiting.
pub never_idle :
    (app_info : String → AppInfo) {w : World} (reached : Reach (start_world app_info) w)
    → ReturnsAll reached
    → w.current ≡ none
    → first_waiting w.heap w.operations ≡ none
unfolding first_waiting
never_idle app_info reached t =
    Reach-IsBusy reached t (start_world-IsExclusive app_info) (λ e. refl)
