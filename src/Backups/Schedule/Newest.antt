-- ===== src/Backups/Schedule/Newest.antt =====
-- What _run_cleanup leaves of a list that is newest first, told by the starts of the archives alone.
-- list_archives of a repository sorts it so; that no two archives start at the same time is assumed.
use freedom_box.Base.{
  ℕ, ◌+◌, String, ◌≡◌, ◌∙◌, refl, ap, Bool, true, false, ◌&&◌, ◌||◌, not, none, some, List, [], ◌∷◌,
  ◌++◌, ◌==◌, ltb, arith, contains, keep_if, Option, Option-cases, inl, inr, if◌then◌else◌,
}
use mathlib.Core.List.{append_assoc}
use freedom_box.Backups.Dates.{DateTime, before}
use freedom_box.Backups.Schedule.Defs.{
  Schedule, Archive, Comment, object, Scheduled, scheduled, scheduled_periods,
}
use freedom_box.Backups.Schedule.Run.{Repository, run_cleanup}
use freedom_box.Backups.Schedule.Laws.{IsRepository}
use freedom_box.Backups.Schedule.Cleanup.{
  count_marked, is_among_newest, survivors, survivors-managed, survivors-unmanaged,
}
use freedom_box.Backups.Schedule.Cleaned.{run_cleanup-survivors}

-- The schedule made the archive, for these periods.
abbrev periods_of : Comment → Option (List String)
periods_of (object (some t) (some periods)) = if t == "scheduled" then some periods else none
periods_of _ = none

module _ (now : DateTime) where
  -- The schedule made the archive, not after now; and for this period.
  abbrev pub is_managed : Archive → Bool
  is_managed a = elim (periods_of a.comment) [ none ↦ false | some ps ↦ not (before now a.start) ]

  abbrev pub is_of : String → Archive → Bool
  is_of p a = elim (periods_of a.comment) [
    | none ↦ false
    | some ps ↦ contains p ps && not (before now a.start)
  ]

  -- How many archives of the period started after this one.
  abbrev pub newer_count : String → Archive → List Archive → ℕ
  newer_count p a [] = 0
  newer_count p a (b ∷ l) =
      (if is_of p b && before a.start b.start then 1 else 0) + newer_count p a l

  -- Among the archives of the period, the archive is one of the newest `n`.
  abbrev pub is_newest : List Archive → Archive → String → ℕ → Bool
  is_newest l a p n = is_of p a && ltb (newer_count p a l) n

  abbrev pub is_to_keep : Schedule → List Archive → Archive → Bool
  is_to_keep s l a =
      not (is_managed a)
      || (is_newest l a "daily" s.daily_to_keep
          || (is_newest l a "weekly" s.weekly_to_keep || is_newest l a "monthly" s.monthly_to_keep))

  scheduled-none : (a : Archive) → scheduled now a ≡ none → is_managed a ≡ false
  unfolding scheduled scheduled_periods
  scheduled-none a e = ground arith

  scheduled-some :
      (a : Archive) (x : Scheduled)
      → scheduled now a ≡ some x
      → (is_managed a ≡ true) × ((p : String) → is_of p a ≡ contains p x.periods)
  unfolding scheduled scheduled_periods
  scheduled-some a x e = (ground (arith, e), λ p. ground (arith, e))

  of_count : String → List Archive → ℕ
  of_count p [] = 0
  of_count p (b ∷ l) = (if is_of p b then 1 else 0) + of_count p l

-- The archive started after all of the list, and before all of it.
abbrev pub StartsAfter : Archive → List Archive → Type 0
StartsAfter a [] = Unit
StartsAfter a (b ∷ l) = (before b.start a.start ≡ true) × StartsAfter a l

abbrev StartsBefore : Archive → List Archive → Type 0
StartsBefore a [] = Unit
StartsBefore a (b ∷ l) = (before a.start b.start ≡ true) × StartsBefore a l

-- Each archive started after all that follow.
abbrev pub IsNewestFirst : List Archive → Type 0
IsNewestFirst [] = Unit
IsNewestFirst (a ∷ l) = StartsAfter a l × IsNewestFirst l

StartsAfter-append :
    (b : Archive) (prior : List Archive) (a : Archive) (l : List Archive)
    → StartsAfter b (prior ++ a ∷ l)
    → before a.start b.start ≡ true
StartsAfter-append b [] a l h = h.0
StartsAfter-append b (c ∷ prior) a l h = StartsAfter-append b prior a l h.1

IsNewestFirst-split :
    (prior : List Archive) (a : Archive) (l : List Archive)
    → IsNewestFirst (prior ++ a ∷ l)
    → StartsBefore a prior × StartsAfter a l
IsNewestFirst-split [] a l h = (tt, h.0)
IsNewestFirst-split (b ∷ prior) a l h =
    let (first, last) = IsNewestFirst-split prior a l h.1 in
    ((StartsAfter-append b prior a l h.0, first), last)

module _ (now : DateTime) (p : String) (a : Archive) where
  newer_count-append :
      (l m : List Archive)
      → newer_count now p a (l ++ m) ≡ newer_count now p a l + newer_count now p a m
  newer_count-append [] m = omega arith
  newer_count-append (b ∷ l) m = let ih = newer_count-append l m in omega arith

  newer_count-after : (l : List Archive) → StartsAfter a l → newer_count now p a l ≡ 0
  newer_count-after [] h = refl
  newer_count-after (b ∷ l) h = ground (arith, newer_count-after l h.1, h.0)

  newer_count-before :
      (l : List Archive) → StartsBefore a l → newer_count now p a l ≡ of_count now p l
  unfolding of_count
  newer_count-before [] h = refl
  newer_count-before (b ∷ l) h = ground (arith, newer_count-before l h.1, h.0)

  -- The newer archives of a period are those that stand before.
  newer_count_lem :
      (prior l : List Archive)
      → IsNewestFirst (prior ++ a ∷ l)
      → newer_count now p a (prior ++ a ∷ l) ≡ of_count now p prior
  newer_count_lem prior l h =
      let (first, last) = IsNewestFirst-split prior a l h in
      ground (
        arith,
        newer_count-append prior (a ∷ l),
        newer_count-before prior first,
        newer_count-after l last,
      )

same_if :
    (b c : Bool) (a : Archive) {l m : List Archive}
    → c ≡ b
    → l ≡ m
    → (if b then a ∷ l else l) ≡ (if c then a ∷ m else m)
same_if b c a e h = ground (arith, e, h)

module _ (now : DateTime) (s : Schedule) where
  -- The archives before are counted in `newer`.
  AreCounted : List Archive → List Scheduled → Type 0
  AreCounted prior newer = (p : String) → of_count now p prior ≡ count_marked p newer

  of_count-append :
      (p : String) (prior : List Archive) (a : Archive)
      → of_count now p (prior ++ a ∷ []) ≡ of_count now p prior + (if is_of now p a then 1 else 0)
  unfolding of_count
  of_count-append p [] a = omega arith
  of_count-append p (b ∷ prior) a = let ih = of_count-append p prior a in omega arith

  is_managed-is_of : (p : String) (a : Archive) → is_managed now a ≡ false → is_of now p a ≡ false
  is_managed-is_of p a e = ground arith

  survivors-keep_if :
      (l prior : List Archive) (newer : List Scheduled)
      → IsNewestFirst (prior ++ l)
      → AreCounted prior newer
      → survivors s now newer l ≡ keep_if (is_to_keep now s (prior ++ l)) l
  unfolding survivors AreCounted
  survivors-keep_if [] prior newer order counted = refl
  survivors-keep_if (a ∷ l) prior newer order counted = elim (Option-cases (scheduled now a)) [
    | inl e ↦
        let plain = scheduled-none now a e in
        let rest =
          survivors-keep_if l (prior ++ a ∷ []) newer (rw append_assoc order) (λ p.
            ground (arith, of_count-append p prior a, counted p, is_managed-is_of p a plain)) in
        survivors-unmanaged s now newer a l e ∙ rw plain (ap (◌∷◌ a) (rw append_assoc at rest))
    | inr (x, e) ↦
        let (managed, marked) = scheduled-some now a x e in
        let rest =
          survivors-keep_if l (prior ++ a ∷ []) (x ∷ newer) (rw append_assoc order)
            (λ p. ground (arith, of_count-append p prior a, counted p, marked p)) in
        let same : (p : String) → newer_count now p a (prior ++ a ∷ l) ≡ count_marked p newer =
          λ p. newer_count_lem now p a prior l order ∙ counted p in
        let kept : is_to_keep now s (prior ++ a ∷ l) a ≡ is_among_newest s newer x = ground (
          arith,
          managed,
          marked "daily",
          marked "weekly",
          marked "monthly",
          same "daily",
          same "weekly",
          same "monthly",
        ) in
        survivors-managed s now newer a l x e
        ∙ same_if (is_among_newest s newer x) (is_to_keep now s (prior ++ a ∷ l) a) a kept
            (rw append_assoc at rest)
  ]

-- When the repository keeps its laws, and each archive of its list started after those that follow, a
-- cleanup that returns leaves in the list exactly these archives: those that the schedule did not make
-- or that started after now; and an archive of the schedule when, for one of its periods, fewer
-- archives of that period started after it than the schedule keeps of the period.
pub run_cleanup-is_to_keep :
    {R : Type 0} (repository : Repository R) (laws : IsRepository repository) (s : Schedule)
    (now : DateTime) (r : R) (l : List Archive)
    → repository.list_archives r ≡ some l
    → IsNewestFirst l
    → (run_cleanup repository s now r).0 ≡ some tt
    → repository.list_archives (run_cleanup repository s now r).1
      ≡ some (keep_if (is_to_keep now s l) l)
unfolding AreCounted of_count
run_cleanup-is_to_keep repository laws s now r l listed order done =
    run_cleanup-survivors repository laws s now r l listed done
    ∙ ap some (survivors-keep_if now s l [] [] order (λ p. refl))
