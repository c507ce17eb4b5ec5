-- ===== src/Backups/Schedule/Cleaned.antt =====
-- A cleanup that returns leaves exactly the archives that the policy keeps.
use freedom_box.Base.{
  ◌≡◌, ◌∙◌, ap, true, false, none, some, List, [], ◌∷◌, ◌++◌, if◌then◌else◌, Bool-cases,
  Option-cases, inl, inr,
}
use mathlib.Core.List.{append_assoc}
use freedom_box.Effect.{continue-some}
use freedom_box.Backups.Dates.{DateTime}
use freedom_box.Backups.Schedule.Defs.{Schedule, Archive, Scheduled, scheduled, list_scheduled}
use freedom_box.Backups.Schedule.Run.{
  Repository, zero_counts, tally, cleanup_loop, run_cleanup, ◌>>◌,
}
use freedom_box.Backups.Schedule.Laws.{HasUniqueNames, IsRepository}
use freedom_box.Backups.Schedule.Cleanup.{
  is_among_newest, survivors, counts, is_kept-is_among_newest, name-scheduled, without_name-append,
  HasUniqueNames-drop, survivors-managed, survivors-unmanaged,
}

module _ {R : Type 0} (repository : Repository R) (laws : IsRepository repository) (s : Schedule)
    (now : DateTime) where
  open repository use {list_archives, delete_archive, cleanup}

  -- After the loop over `l`, with the archives in `prior` behind it.
  abbrev Leaves : List Archive → List Archive → List Scheduled → Type 0
  Leaves prior l newer =
      (r : R)
      → list_archives r ≡ some (prior ++ l)
      → HasUniqueNames (prior ++ l)
      → (cleanup_loop repository s (counts newer) (list_scheduled now l) r).0 ≡ some tt
      → list_archives (cleanup_loop repository s (counts newer) (list_scheduled now l) r).1
        ≡ some (prior ++ survivors s now newer l)

  -- One archive more behind the loop.
  Leaves-shift :
      (prior : List Archive) (a : Archive) (l : List Archive) (newer : List Scheduled)
      → Leaves (prior ++ a ∷ []) l newer
      → (r : R) → list_archives r ≡ some (prior ++ a ∷ l)
      → HasUniqueNames (prior ++ a ∷ l)
      → (cleanup_loop repository s (counts newer) (list_scheduled now l) r).0 ≡ some tt
      → list_archives (cleanup_loop repository s (counts newer) (list_scheduled now l) r).1
        ≡ some (prior ++ a ∷ survivors s now newer l)
  Leaves-shift prior a l newer ih r e u done =
      rw append_assoc at (ih r (rw append_assoc e) (rw append_assoc u) done)

  -- The loop at an archive that is not managed, and at one that is.
  loop-unmanaged :
      (a : Archive) (l : List Archive) (newer : List Scheduled)
      → scheduled now a ≡ none
      → cleanup_loop repository s (counts newer) (list_scheduled now (a ∷ l))
        ≡ cleanup_loop repository s (counts newer) (list_scheduled now l)
  unfolding list_scheduled
  loop-unmanaged a l newer e = rw e

  loop-managed :
      (a : Archive) (x : Scheduled) (l : List Archive) (newer : List Scheduled)
      → scheduled now a ≡ some x
      → cleanup_loop repository s (counts newer) (list_scheduled now (a ∷ l)) ≡ (
          if is_among_newest s newer x
          then cleanup_loop repository s (counts (x ∷ newer)) (list_scheduled now l)
          else (delete_archive x.name
              >> cleanup_loop repository s (counts (x ∷ newer)) (list_scheduled now l)))
  unfolding list_scheduled cleanup_loop tally
  loop-managed a x l newer e = rw (e, is_kept-is_among_newest s newer x)

  Leaves-kept :
      (prior : List Archive) (a : Archive) (x : Scheduled) (l : List Archive)
      (newer : List Scheduled)
      → scheduled now a ≡ some x
      → is_among_newest s newer x ≡ true
      → Leaves (prior ++ a ∷ []) l (x ∷ newer)
      → Leaves prior (a ∷ l) newer
  Leaves-kept prior a x l newer e kept ih r listed unique =
      rw (loop-managed a x l newer e, survivors-managed s now newer a l x e, kept)
        (Leaves-shift prior a l (x ∷ newer) ih r listed unique)

  Leaves-deleted :
      (prior : List Archive) (a : Archive) (x : Scheduled) (l : List Archive)
      (newer : List Scheduled)
      → scheduled now a ≡ some x
      → is_among_newest s newer x ≡ false
      → Leaves prior l (x ∷ newer)
      → Leaves prior (a ∷ l) newer
  Leaves-deleted prior a x l newer e old ih r listed unique =
      rw (loop-managed a x l newer e, survivors-managed s now newer a l x e, old)
        λ done.
          let (_, went, more) =
            continue-some (delete_archive x.name r).0
              (λ _. cleanup_loop repository s (counts (x ∷ newer)) (list_scheduled now l))
              (delete_archive x.name r).1 done in
          rw went (
            ih (delete_archive x.name r).1
              (laws.deleted x.name r (prior ++ a ∷ l) went listed
                ∙ ap some (rw (name-scheduled now a x e) (without_name-append prior a l unique)))
              (HasUniqueNames-drop prior a l unique) more)

  Leaves-cons :
      (prior : List Archive) (a : Archive) (l : List Archive) (newer : List Scheduled)
      → Leaves (prior ++ a ∷ []) l newer
      → ((x : Scheduled) → Leaves (prior ++ a ∷ []) l (x ∷ newer))
      → ((x : Scheduled) → Leaves prior l (x ∷ newer))
      → Leaves prior (a ∷ l) newer
  Leaves-cons prior a l newer plain kept gone = elim (Option-cases (scheduled now a)) [
    | inl e ↦ λ r listed unique.
        rw (loop-unmanaged a l newer e, survivors-unmanaged s now newer a l e)
          (Leaves-shift prior a l newer plain r listed unique)
    | inr (x, e) ↦ elim (Bool-cases (is_among_newest s newer x)) [
      | inl new ↦ Leaves-kept prior a x l newer e new (kept x)
      | inr old ↦ Leaves-deleted prior a x l newer e old (gone x)
    ]
  ]

  loop-Leaves : (l prior : List Archive) (newer : List Scheduled) → Leaves prior l newer
  unfolding cleanup_loop list_scheduled survivors
  loop-Leaves [] prior newer = λ r e u done. e
  loop-Leaves (a ∷ l) prior newer =
      Leaves-cons prior a l newer (loop-Leaves l (prior ++ a ∷ []) newer)
        (λ x. loop-Leaves l (prior ++ a ∷ []) (x ∷ newer)) (λ x. loop-Leaves l prior (x ∷ newer))

-- When the repository keeps its laws, a cleanup that returns leaves, in their order, the archives
-- that are not of the schedule or started after now, and of the others exactly those before which, for
-- one of their periods, fewer of that period are listed than the schedule keeps.
pub run_cleanup-survivors :
    {R : Type 0} (repository : Repository R) (laws : IsRepository repository) (s : Schedule)
    (now : DateTime) (r : R) (l : List Archive)
    → repository.list_archives r ≡ some l
    → (run_cleanup repository s now r).0 ≡ some tt
    → repository.list_archives (run_cleanup repository s now r).1 ≡ some (survivors s now [] l)
unfolding run_cleanup
run_cleanup-survivors repository laws s now r l listed done =
    let loop = cleanup_loop repository s zero_counts (list_scheduled now l) in
    let (_, went, cleaned) =
      continue-some (loop r).0 (λ _. repository.cleanup) (loop r).1 (rw listed at done) in
    rw (listed, went)
      (laws.cleaned (loop r).1 cleaned
        ∙ loop-Leaves repository laws s now l [] [] r listed (laws.unique r l listed) went)
