-- ===== src/Operation/Window.antt =====
-- A call of collect_results in the window between the end of a target, which marks the operation
-- completed without the manager's lock, and the callback of its thread.
use freedom_box.Base.{
  ℕ, String, ◌≡◌, refl, sym, subst, ◌∙◌, Bool, true, false, Bool-cases, inl, inr, not, none, some,
  some-injective, [], ◌∷◌, ◌==◌, any, keep_if, nat_eq, arith, eq_iff, eq_refl,
}
use freedom_box.Dict.{Dict, lookup, has_key, values, IsDistinct}
use freedom_box.Operation.Defs.{Operation, State, Thread}
use freedom_box.Operation.Manager.{
  World, key_error, first_waiting, collect_results, is_finished_for,
}
use freedom_box.Operation.Threads.{complete}
use freedom_box.Operation.Exclusive.{IsExclusive, is_waiting-first_waiting}
use freedom_box.Operation.Keyed.{IsKeyed}
use freedom_box.Operation.Collect.{collect_results_lem, finished, unfinished}
use freedom_box.Operation.Races.{callback_raises}

has_key-keep_if :
    (p : String × ℕ → Bool) (k : String) (d : Dict ℕ)
    → lookup k d ≡ none
    → has_key k (keep_if p d) ≡ false
has_key-keep_if p k [] e = refl
has_key-keep_if p k ((j, r) ∷ d) e = ground (arith, has_key-keep_if p k d)

module _ (h : ℕ → Operation) (app_id : String) (k : String) (r : ℕ)
    (f : is_finished_for app_id (h r) ≡ true) where
  has_key-unfinished :
      (d : Dict ℕ) → IsDistinct d → lookup k d ≡ some r → has_key k (unfinished h app_id d) ≡ false
  has_key-unfinished [] v e = refl
  has_key-unfinished ((j, t) ∷ d) v e = elim (Bool-cases (j == k)) [
    | inl same ↦
        let there : t ≡ r = some-injective t r (rw same at e) in
        let gone =
          has_key-keep_if (λ x. not (is_finished_for app_id (h x.1))) k d
            (subst (λ x. lookup x d ≡ none) ((eq_iff j k).0 same) v.0) in
        let done = subst (λ x. is_finished_for app_id (h x) ≡ true) (sym there) f in rw done gone
    | inr other ↦ ground (arith, other, has_key-unfinished d v.1, e)
  ]

  any-finished :
      (d : Dict ℕ)
      → lookup k d ≡ some r
      → any (λ x. nat_eq x r) (finished h app_id (values d)) ≡ true
  any-finished [] e = absurd (ground arith)
  any-finished ((j, t) ∷ d) e = elim (Bool-cases (j == k)) [
    | inl same ↦
        let there : t ≡ r = some-injective t r (rw same at e) in
        let done = subst (λ x. is_finished_for app_id (h x) ≡ true) (sym there) f in
        rw done (ground (arith, there))
    | inr other ↦ ground (arith, other, any-finished d, e)
  ]

first_waiting-unfinished :
    (h : ℕ → Operation) (app_id : String) (d : Dict ℕ)
    → first_waiting h (unfinished h app_id d) ≡ first_waiting h d
unfolding first_waiting
first_waiting-unfinished h app_id [] = refl
first_waiting-unfinished h app_id ((j, t) ∷ d) = ground (arith, first_waiting-unfinished h app_id d)

-- If collect_results is called in the window, for the app of a listed operation that is completed,
-- shows no message, and whose callback is to come, it returns that operation with the others. Its
-- callback then raises KeyError and leaves nothing current; and the first operation that waited before
-- still waits, listed and with a thread that was never started.
pub collect_before_callback :
    (app_id : String) (r s : ℕ) (w : World)
    → IsExclusive w
    → IsKeyed w
    → (w.heap r).thread ≡ Thread.in_callback
    → (w.heap r).app_id ≡ app_id
    → (w.heap r).show_message ≡ false
    → lookup (w.heap r).op_id w.operations ≡ some r
    → first_waiting w.heap w.operations ≡ some s
    → let (results, left) = collect_results app_id w in
      let (reply, end) = complete r left in
      (any (λ x. nat_eq x r) results ≡ true)
      × (reply ≡ key_error)
      × (end.current ≡ none)
      × (first_waiting end.heap end.operations ≡ some s)
      × ((end.heap s).thread ≡ Thread.unstarted)
collect_before_callback app_id r s w v k t a m l f =
    let completed : (w.heap r).state ≡ State.completed = ground (arith, v.consistent r, t) in
    let done : is_finished_for app_id (w.heap r) ≡ true =
      ground (arith, completed, a, eq_refl app_id) in
    let left = record w { operations = unfinished w.heap app_id w.operations } in
    let (raised, current, waits, thread) =
      callback_raises r s left t completed m
        (has_key-unfinished w.heap app_id (w.heap r).op_id r done w.operations k.distinct l)
        (first_waiting-unfinished w.heap app_id w.operations ∙ f) in
    let idle : (w.heap s).thread ≡ Thread.unstarted =
      ground (arith, v.consistent s, is_waiting-first_waiting w.heap w.operations s f) in
    rw (collect_results_lem app_id w k) (
      any-finished w.heap app_id (w.heap r).op_id r done w.operations l,
      raised,
      current,
      waits,
      thread ∙ idle,
    )
