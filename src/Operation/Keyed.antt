-- ===== src/Operation/Keyed.antt =====
-- The dictionary of operations: no key twice, and each key is the op_id of its operation.
use freedom_box.Base.{
  ℕ, String, ◌≡◌, refl, eq_iff, Bool, true, false, Option, none, some, List, [], ◌∷◌, arith,
}
use freedom_box.Dict.{Dict, insert, remove, values, IsDistinct}
use freedom_box.Dict.Laws.{IsDistinct-insert, IsDistinct-remove}
use freedom_box.Operation.Defs.{Operation, Request, AppInfo, init, Outcome}
use freedom_box.Operation.Manager.{
  World, update, collect as collect_loop, collect_results, keep_remaining, run, schedule_next,
  schedule_from, start_next, new, enlist, drop_and_schedule,
}
use freedom_box.Operation.Threads.{
  Step, create, start, report, settle_target, call_back, collect, Reach, here, later, begin,
  on_update, finish, complete, write,
}
use freedom_box.Operation.Exclusive.{AllBelow, IsExclusive}
use freedom_box.Operation.Safety.{Reach-IsExclusive, start_world, start_world-IsExclusive}

abbrev pub AllKeyed : (ℕ → Operation) → Dict ℕ → Type 0
AllKeyed h [] = Unit
AllKeyed h ((k, r) ∷ d) = ((h r).op_id ≡ k) × AllKeyed h d

pub record IsKeyed (w : World) : Type 0 where
  pub keyed : AllKeyed w.heap w.operations
  pub distinct : IsDistinct w.operations

AllKeyed-update :
    (h : ℕ → Operation) (r : ℕ) (op : Operation) (d : Dict ℕ)
    → op.op_id ≡ (h r).op_id
    → AllKeyed h d
    → AllKeyed (update h r op) d
AllKeyed-update h r op [] e v = tt
AllKeyed-update h r op ((k, s) ∷ d) e v = (ground (arith, v.0), AllKeyed-update h r op d e v.1)

AllKeyed-update_new :
    (h : ℕ → Operation) (n : ℕ) (op : Operation) (d : Dict ℕ)
    → AllBelow n d
    → AllKeyed h d
    → AllKeyed (update h n op) d
AllKeyed-update_new h n op [] b v = tt
AllKeyed-update_new h n op ((k, s) ∷ d) b v =
    (ground (arith, v.0, b.0), AllKeyed-update_new h n op d b.1 v.1)

AllKeyed-insert :
    (h : ℕ → Operation) (k : String) (r : ℕ) (d : Dict ℕ)
    → (h r).op_id ≡ k
    → AllKeyed h d
    → AllKeyed h (insert k r d)
AllKeyed-insert h k r [] e v = (e, tt)
AllKeyed-insert h k r ((j, s) ∷ d) e v = ground (arith, AllKeyed-insert h k r d, eq_iff j k)

AllKeyed-remove :
    (h : ℕ → Operation) (k : String) (d : Dict ℕ) → AllKeyed h d → AllKeyed h (remove k d)
AllKeyed-remove h k [] v = tt
AllKeyed-remove h k ((j, s) ∷ d) v = ground (arith, AllKeyed-remove h k d)

start_next-IsKeyed : (w : World) (o : Option ℕ) → IsKeyed w → IsKeyed (start_next w o)
unfolding run
start_next-IsKeyed w none v = v
start_next-IsKeyed w (some r) v = record {
  keyed = AllKeyed-update w.heap r _ w.operations refl v.keyed;
  distinct = v.distinct;
}

schedule_from-IsKeyed : (w : World) (c : Option ℕ) → IsKeyed w → IsKeyed (schedule_from w c)
schedule_from-IsKeyed w none v = start_next-IsKeyed w _ v
schedule_from-IsKeyed w (some r) v = v

schedule_next-IsKeyed : (w : World) → IsKeyed w → IsKeyed (schedule_next w)
unfolding schedule_next
schedule_next-IsKeyed w v = schedule_from-IsKeyed w w.current v

enlist-IsKeyed : (q : Request) (w : World) → IsExclusive w → IsKeyed w → IsKeyed (enlist q w)
unfolding enlist init
enlist-IsKeyed q w x v = record {
  keyed =
      AllKeyed-insert (update w.heap w.next (init q)) q.op_id w.next w.operations (ground arith)
        (AllKeyed-update_new w.heap w.next (init q) w.operations x.bounded v.keyed);
  distinct = IsDistinct-insert q.op_id w.next w.operations v.distinct;
}

write-IsKeyed :
    (r : ℕ) (op : Operation) (w : World)
    → op.op_id ≡ (w.heap r).op_id
    → IsKeyed w
    → IsKeyed (write r op w)
unfolding write
write-IsKeyed r op w e v = record {
  keyed = AllKeyed-update w.heap r op w.operations e v.keyed;
  distinct = v.distinct;
}

drop_and_schedule-IsKeyed :
    (shown listed : Bool) (k : String) (w : World)
    → IsKeyed w
    → IsKeyed (drop_and_schedule shown listed k w).1
drop_and_schedule-IsKeyed true listed k w v = schedule_next-IsKeyed w v
drop_and_schedule-IsKeyed false true k w v = schedule_next-IsKeyed _ (record {
  keyed = AllKeyed-remove w.heap k w.operations v.keyed;
  distinct = IsDistinct-remove k w.operations v.distinct;
})
drop_and_schedule-IsKeyed false false k w v = v

complete-IsKeyed : (r : ℕ) (w : World) → IsKeyed w → IsKeyed (complete r w).1
unfolding complete
complete-IsKeyed r w v =
    drop_and_schedule-IsKeyed _ _ _ _ (record {
      keyed = AllKeyed-update w.heap r _ w.operations refl v.keyed;
      distinct = v.distinct;
    })

module _ (h : ℕ → Operation) (app_id : String) where
  AllKeyed-collect :
      (rs results : List ℕ) (remaining : Dict ℕ)
      → AllKeyed h remaining
      → AllKeyed h (collect_loop h app_id rs results remaining).1
  unfolding collect_loop
  AllKeyed-collect [] results remaining v = v
  AllKeyed-collect (r ∷ rs) results remaining v =
      AllKeyed-collect rs _ _ (ground (arith, AllKeyed-insert h (h r).op_id r remaining refl v))

  IsDistinct-collect :
      (rs results : List ℕ) (remaining : Dict ℕ)
      → IsDistinct remaining
      → IsDistinct (collect_loop h app_id rs results remaining).1
  unfolding collect_loop
  IsDistinct-collect [] results remaining v = v
  IsDistinct-collect (r ∷ rs) results remaining v =
      IsDistinct-collect rs _ _ (ground (arith, IsDistinct-insert (h r).op_id r remaining v))

keep_remaining-IsKeyed :
    (w : World) (results : List ℕ) (remaining : Dict ℕ)
    → AllKeyed w.heap remaining
    → IsDistinct remaining
    → IsKeyed w
    → IsKeyed (keep_remaining w results remaining)
keep_remaining-IsKeyed w [] remaining k d v = v
keep_remaining-IsKeyed w (r ∷ rs) remaining k d v = record { keyed = k; distinct = d }

collect_results-IsKeyed :
    (app_id : String) (w : World) → IsKeyed w → IsKeyed (collect_results app_id w).1
unfolding collect_results
collect_results-IsKeyed app_id w v =
    keep_remaining-IsKeyed w _ _ (AllKeyed-collect w.heap app_id (values w.operations) [] [] tt)
      (IsDistinct-collect w.heap app_id (values w.operations) [] [] tt) v

new-IsKeyed : (q : Request) (w : World) → IsExclusive w → IsKeyed w → IsKeyed (new q w).1
unfolding new
new-IsKeyed q w x v = ground (arith, schedule_next-IsKeyed (enlist q w) (enlist-IsKeyed q w x v))

finish-IsKeyed : (r : ℕ) (o : Outcome) (w : World) → IsKeyed w → IsKeyed (finish r o w)
unfolding finish
finish-IsKeyed r (Outcome.returned x) w v = write-IsKeyed r _ w refl v
finish-IsKeyed r (Outcome.raised x) w v = write-IsKeyed r _ w refl v

Step-IsKeyed : {u w : World} → Step u w → IsExclusive u → IsKeyed u → IsKeyed w
unfolding begin on_update
Step-IsKeyed (create q) x v = new-IsKeyed q _ x v
Step-IsKeyed (start r e) x v = write-IsKeyed r _ _ refl v
Step-IsKeyed (report r m o e) x v = write-IsKeyed r _ _ refl v
Step-IsKeyed (settle_target r o e) x v = finish-IsKeyed r o _ v
Step-IsKeyed (call_back r e) x v = complete-IsKeyed r _ v
Step-IsKeyed (collect app_id) x v = collect_results-IsKeyed app_id _ v

-- However calls and threads interleave after the manager is made, no operation ID is listed twice,
-- and each ID leads to an operation that has it as its op_id.
pub Reach-IsKeyed :
    (app_info : String → AppInfo) {w : World} → Reach (start_world app_info) w → IsKeyed w
Reach-IsKeyed app_info here = record { keyed = tt; distinct = tt }
Reach-IsKeyed app_info (later r s) =
    Step-IsKeyed s (Reach-IsExclusive (start_world-IsExclusive app_info) r)
      (Reach-IsKeyed app_info r)
