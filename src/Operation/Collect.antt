-- ===== src/Operation/Collect.antt =====
-- collect_results takes the finished operations of an app, in their order, and leaves the others.
use freedom_box.Base.{
  ℕ, String, ◌≡◌, refl, sym, ap, not, List, [], ◌∷◌, ◌++◌, arith, keep_if, Bool-cases, inl, inr,
}
use mathlib.Core.List.{append_assoc, append-nil}
use freedom_box.Dict.{Dict, values, IsDistinct}
use freedom_box.Dict.Laws.{insert_new, IsDistinct-drop, lookup_before}
use freedom_box.Operation.Defs.{Operation}
use freedom_box.Operation.Manager.{
  World, collect as collect_loop, collect_results, keep_remaining, is_finished_for,
}
use freedom_box.Operation.Keyed.{AllKeyed, IsKeyed}

module _ (h : ℕ → Operation) (app_id : String) where
  -- The entries that are not finished operations of the app.
  abbrev pub unfinished : Dict ℕ → Dict ℕ
  unfinished = keep_if (λ e. not (is_finished_for app_id (h e.1)))

  abbrev pub finished : List ℕ → List ℕ
  finished = keep_if (λ r. is_finished_for app_id (h r))

  collect-eq :
      (d : Dict ℕ) (results : List ℕ) (remaining : Dict ℕ)
      → AllKeyed h d
      → IsDistinct (remaining ++ d)
      → collect_loop h app_id (values d) results remaining
        ≡ (results ++ finished (values d), remaining ++ unfinished d)
  unfolding collect_loop
  collect-eq [] results remaining k u = cc (append-nil results, append-nil remaining)
  collect-eq ((j, r) ∷ d) results remaining k u = elim (Bool-cases (is_finished_for app_id (h r))) [
    | inl f ↦ ground (
      arith,
      f,
      collect-eq d (results ++ r ∷ []) remaining k.1 (IsDistinct-drop remaining j r d u),
      append_assoc results (r ∷ []) (finished (values d)),
    )
    | inr f ↦ ground (
      arith,
      f,
      k.0,
      insert_new j r remaining (lookup_before remaining j r d u),
      collect-eq d results (remaining ++ (j, r) ∷ []) k.1 (rw append_assoc u),
      append_assoc remaining ((j, r) ∷ []) (unfinished d),
    )
  ]

  unfinished_of_none : (d : Dict ℕ) → finished (values d) ≡ [] → unfinished d ≡ d
  unfinished_of_none [] e = refl
  unfinished_of_none ((j, r) ∷ d) e = ground (arith, unfinished_of_none d)

operations-keep_remaining :
    (w : World) (results : List ℕ) (remaining : Dict ℕ)
    → (results ≡ [] → remaining ≡ w.operations)
    → keep_remaining w results remaining ≡ record w { operations = remaining }
operations-keep_remaining w [] remaining e = ap (λ d. record w { operations = d }) (sym (e refl))
operations-keep_remaining w (r ∷ rs) remaining e = refl

-- When the dictionary has each ID once and under its own operation, collect_results returns exactly
-- the finished operations of the app, in their order, and takes exactly those off the list.
pub collect_results_lem :
    (app_id : String) (w : World)
    → IsKeyed w
    → collect_results app_id w ≡ (
      finished w.heap app_id (values w.operations),
      record w { operations = unfinished w.heap app_id w.operations },
    )
unfolding collect_results
collect_results_lem app_id w v =
    rw (collect-eq w.heap app_id w.operations [] [] v.keyed v.distinct) (
      ap (λ u. (finished w.heap app_id (values w.operations), u))
        (operations-keep_remaining w _ _ (unfinished_of_none w.heap app_id w.operations)))
