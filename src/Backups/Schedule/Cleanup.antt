-- ===== src/Backups/Schedule/Cleanup.antt =====
-- Which archives _run_cleanup leaves, by their places in the list: those that it does not manage, and
-- of those that it manages the first of each period, as many as the schedule says.
use freedom_box.Base.{
  ℕ, String, ◌≡◌, refl, Bool, false, ◌&&◌, ◌||◌, none, some, List, [], ◌∷◌, ◌++◌, eq_iff, eq_refl,
  arith, ltb, if◌then◌else◌, contains, contains-append, ap,
}
use freedom_box.Backups.Dates.{DateTime}
use freedom_box.Backups.Schedule.Defs.{Schedule, Archive, Scheduled, scheduled}
use freedom_box.Backups.Schedule.Run.{Counts, add_if, tally, is_kept}
use freedom_box.Backups.Schedule.Laws.{names, HasUniqueNames, without_name}

-- How many of the archives are marked with the period.
abbrev pub count_marked : String → List Scheduled → ℕ
count_marked p [] = 0
count_marked p (a ∷ l) = add_if (contains p a.periods) (count_marked p l)

-- For some period of the archive, fewer of the archives listed before have the period than are to be
-- kept.
abbrev pub is_among_newest : Schedule → List Scheduled → Scheduled → Bool
is_among_newest s newer a =
    contains "daily" a.periods && ltb (count_marked "daily" newer) s.daily_to_keep
    || (contains "weekly" a.periods && ltb (count_marked "weekly" newer) s.weekly_to_keep
        || contains "monthly" a.periods && ltb (count_marked "monthly" newer) s.monthly_to_keep)

module _ (s : Schedule) (now : DateTime) where
  -- The archives of a list that a cleanup leaves, after the managed ones in `newer`.
  unfoldable pub survivors : List Scheduled → List Archive → List Archive
  survivors newer [] = []
  survivors newer (a ∷ l) = elim (scheduled now a) [
    | none ↦ a ∷ survivors newer l
    | some x ↦
        let rest = survivors (x ∷ newer) l in if is_among_newest s newer x then a ∷ rest else rest
  ]

-- One archive more, by whether it is managed and among the newest.
module _ (s : Schedule) (now : DateTime) (newer : List Scheduled) (a : Archive)
    (l : List Archive) where
  pub survivors-unmanaged :
      scheduled now a ≡ none → survivors s now newer (a ∷ l) ≡ a ∷ survivors s now newer l
  unfolding survivors
  survivors-unmanaged e = ground arith

  pub survivors-managed :
      (x : Scheduled)
      → scheduled now a ≡ some x
      → survivors s now newer (a ∷ l) ≡ (
          if is_among_newest s newer x
          then a ∷ survivors s now (x ∷ newer) l
          else survivors s now (x ∷ newer) l)
  unfolding survivors
  survivors-managed x e = ground arith

abbrev pub counts : List Scheduled → Counts
counts newer = record {
  daily = count_marked "daily" newer;
  weekly = count_marked "weekly" newer;
  monthly = count_marked "monthly" newer;
}

-- The flag that the loop computes from its counts is the position among the newer archives.
pub is_kept-is_among_newest :
    (s : Schedule) (newer : List Scheduled) (x : Scheduled)
    → is_kept s (tally (counts newer) x.periods) x.periods ≡ is_among_newest s newer x
unfolding is_kept tally
is_kept-is_among_newest s newer x = ground arith

pub name-scheduled :
    (now : DateTime) (a : Archive) (x : Scheduled) → scheduled now a ≡ some x → x.name ≡ a.name
unfolding scheduled
name-scheduled now a x e = ground arith

names-append : (l m : List Archive) → names (l ++ m) ≡ names l ++ names m
names-append [] m = refl
names-append (a ∷ l) m = ap (◌∷◌ a.name) (names-append l m)

without_name_absent :
    (n : String) (l : List Archive) → contains n (names l) ≡ false → without_name n l ≡ l
without_name_absent n [] h = refl
without_name_absent n (a ∷ l) h = ground (arith, without_name_absent n l)

-- Deleting by a name that is unique takes out its archive.
pub without_name-append :
    (prior : List Archive) (a : Archive) (l : List Archive)
    → HasUniqueNames (prior ++ a ∷ l)
    → without_name a.name (prior ++ a ∷ l) ≡ prior ++ l
without_name-append [] a l h = ground (arith, eq_refl a.name, without_name_absent a.name l h.0)
without_name-append (b ∷ prior) a l h = ground (
  arith,
  h.0,
  names-append prior (a ∷ l),
  contains-append b.name (names prior) (names (a ∷ l)),
  eq_iff a.name b.name,
  eq_iff b.name a.name,
  without_name-append prior a l h.1,
)

pub HasUniqueNames-drop :
    (prior : List Archive) (a : Archive) (l : List Archive)
    → HasUniqueNames (prior ++ a ∷ l)
    → HasUniqueNames (prior ++ l)
HasUniqueNames-drop [] a l h = h.1
HasUniqueNames-drop (b ∷ prior) a l h = (
  ground (
    arith,
    h.0,
    names-append prior (a ∷ l),
    names-append prior l,
    contains-append b.name (names prior) (names (a ∷ l)),
    contains-append b.name (names prior) (names l),
  ),
  HasUniqueNames-drop prior a l h.1,
)
