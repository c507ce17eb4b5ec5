-- ===== src/Backups/Schedule/Trigger.antt =====
-- A run that is triggered again within two hours of a backup makes none, and a run that makes none
-- leaves the archives alone.
use freedom_box.Base.{
  ℕ, String, ◌≡◌, ◌≢◌, refl, Bool, true, false, ◌&&◌, ◌||◌, not, none, some, List, [], ◌∷◌, ◌++◌,
  arith, ltb, nat_eq, if◌then◌else◌, contains, Bool-cases, inl, inr, eq_refl,
}
use freedom_box.Backups.Dates.{DateTime, before, seconds, differs_less}
use freedom_box.Backups.Schedule.Defs.{
  Schedule, Archive, Scheduled, scheduled, list_scheduled, recent_times, no_times,
  is_backup_too_soon, when, disabled_periods, due_periods,
}
use freedom_box.Backups.Schedule.Run.{scheduled_comment}
use freedom_box.Backups.Schedule.Times.{recent_times-IsLatest}
use freedom_box.Backups.Schedule.Cleanup.{survivors, survivors-managed, survivors-unmanaged}

-- The periods that are due: in terms of whether each is wanted.
contains-disabled :
    (s : Schedule)
    → (contains "daily" (disabled_periods s) ≡ nat_eq s.daily_to_keep 0)
      × (contains "weekly" (disabled_periods s) ≡ nat_eq s.weekly_to_keep 0)
      × (contains "monthly" (disabled_periods s) ≡ nat_eq s.monthly_to_keep 0)
unfolding disabled_periods
contains-disabled s = ground arith

-- The periods by whether each of the three is wanted.
abbrev three : Bool → Bool → Bool → List String
three d m w = when d "daily" ++ (when m "monthly" ++ when w "weekly")

contains-three :
    (d m w : Bool)
    → (contains "daily" (three d m w) ≡ d)
      × (contains "weekly" (three d m w) ≡ w)
      × (contains "monthly" (three d m w) ≡ m)
contains-three d m w = ground arith

abbrev is_wanted : List String → List String → List String → String → Bool
is_wanted too_long time_for disabled p =
    (contains p too_long || contains p time_for) && not (contains p disabled)

due_periods-three :
    (l t d : List String)
    → due_periods l t d
      ≡ three (is_wanted l t d "daily") (is_wanted l t d "monthly") (is_wanted l t d "weekly")
unfolding due_periods
due_periods-three l t d = ground arith

some_of_three :
    (d m w a b c : Bool)
    → (d ≡ true → a ≡ true)
    → (w ≡ true → b ≡ true)
    → (m ≡ true → c ≡ true)
    → three d m w ≢ []
    → (d && a || (w && b || m && c)) ≡ true
some_of_three d m w a b c da wb mc some_due = ground arith

-- A wanted period is not disabled.
positive_if_wanted :
    (x y z : Bool) (n : ℕ) → z ≡ nat_eq n 0 → ((x || y) && not z) ≡ true → ltb 0 n ≡ true
positive_if_wanted x y z n e h = ground arith

-- A due period is one of the three, and some archives of it are to be kept.
pub due_is_kept :
    (s : Schedule) (l t : List String)
    → due_periods l t (disabled_periods s) ≢ []
    → (contains "daily" (due_periods l t (disabled_periods s)) && ltb 0 s.daily_to_keep
        || (contains "weekly" (due_periods l t (disabled_periods s)) && ltb 0 s.weekly_to_keep
            || contains "monthly" (due_periods l t (disabled_periods s))
              && ltb 0 s.monthly_to_keep))
      ≡ true
due_is_kept s l t =
    let d = disabled_periods s in
    let (kd, kw, km) = contains-disabled s in
    let (cd, cw, cm) =
      contains-three (is_wanted l t d "daily") (is_wanted l t d "monthly")
        (is_wanted l t d "weekly") in
    rw (due_periods-three l t d, cd, cw, cm)
      (some_of_three _ _ _ _ _ _
        (positive_if_wanted (contains "daily" l) (contains "daily" t) (contains "daily" d)
          s.daily_to_keep kd)
        (positive_if_wanted (contains "weekly" l) (contains "weekly" t) (contains "weekly" d)
          s.weekly_to_keep kw)
        (positive_if_wanted (contains "monthly" l) (contains "monthly" t) (contains "monthly" d)
          s.monthly_to_keep km))

scheduled-scheduled_comment :
    (now : DateTime) (a : Archive) (ps : List String)
    → a.comment ≡ scheduled_comment ps
    → scheduled now a ≡ (
        if before now a.start
        then none
        else some (record { name = a.name; start = a.start; periods = ps }))
unfolding scheduled
scheduled-scheduled_comment now a ps e = rw e (ground (arith, eq_refl "scheduled"))

-- An archive made now for the due periods is kept by the cleanup that follows.
pub survivors-new :
    (s : Schedule) (l t : List String) (now : DateTime) (a : Archive) (rest : List Archive)
    → due_periods l t (disabled_periods s) ≢ []
    → a.comment ≡ scheduled_comment (due_periods l t (disabled_periods s))
    → (m : List Archive) × (survivors s now [] (a ∷ rest) ≡ a ∷ m)
survivors-new s l t now a rest some_due e =
    let ps = due_periods l t (disabled_periods s) in
    let x : Scheduled = record { name = a.name; start = a.start; periods = ps } in
    let found = scheduled-scheduled_comment now a ps e in
    elim (Bool-cases (before now a.start)) [
      | inl future ↦
          (survivors s now [] rest, survivors-unmanaged s now [] a rest (rw future at found))
      | inr past ↦ (
        survivors s now (x ∷ []) rest,
        rw (survivors-managed s now [] a rest x (rw past at found), due_is_kept s l t some_due)
            refl,
      )
    ]

soon_after :
    (x : Scheduled) (rest : List Scheduled) (soon : DateTime) (a b c : Bool)
    → differs_less soon x.start (seconds 7200) ≡ true
    → (contains "daily" x.periods && a
        || (contains "weekly" x.periods && b || contains "monthly" x.periods && c))
      ≡ true
    → is_backup_too_soon soon (recent_times no_times (x ∷ rest)) ≡ true
unfolding is_backup_too_soon
soon_after x rest soon a b c early marked =
    let (d, w, m) = recent_times-IsLatest (x ∷ rest) in
    ground (arith, d.covers.0, w.covers.0, m.covers.0)

-- The start of an archive that is listed and marked bounds the times from below, so two hours are
-- too soon.
pub too_soon_after :
    (s : Schedule) (l t : List String) (now soon : DateTime) (a : Archive) (rest : List Archive)
    → due_periods l t (disabled_periods s) ≢ []
    → a.comment ≡ scheduled_comment (due_periods l t (disabled_periods s))
    → before now a.start ≡ false
    → differs_less soon a.start (seconds 7200) ≡ true
    → is_backup_too_soon soon (recent_times no_times (list_scheduled now (a ∷ rest))) ≡ true
unfolding list_scheduled
too_soon_after s l t now soon a rest some_due e listed early =
    let ps = due_periods l t (disabled_periods s) in
    let x : Scheduled = record { name = a.name; start = a.start; periods = ps } in
    let found = rw listed at (scheduled-scheduled_comment now a ps e) in
    rw found (
      soon_after x (list_scheduled now rest) soon (ltb 0 s.daily_to_keep) (ltb 0 s.weekly_to_keep)
        (ltb 0 s.monthly_to_keep) early (due_is_kept s l t some_due))
