-- ===== src/Backups/Schedule/Times.antt =====
-- The times of the last archives, and the periods that are overdue.
use freedom_box.Base.{
  ◌+◌, ◌≤◌, ◌<◌, String, ◌≡◌, ◌⊎◌, inl, inr, refl, sym, ◌∙◌, Bool, true, false, ◌&&◌, List, [], ◌∷◌,
  arith, contains, if◌then◌else◌,
}
use freedom_box.Backups.Dates.{DateTime, min_time, stamp, before, seconds, days_in_month, replace}
use freedom_box.Backups.Schedule.Defs.{
  Scheduled, Times, note_archive, later_of, recent_times, no_times, too_long_since_last_backup,
  next_monthly,
}

-- Every archive marked with the period has the property.
abbrev pub AllMarked : String → (Scheduled → Type 0) → List Scheduled → Type 0
AllMarked p P [] = Unit
AllMarked p P (a ∷ l) = (contains p a.periods ≡ true → P a) × AllMarked p P l

-- Some archive marked with the period has the property.
abbrev pub HasMarked : String → (Scheduled → Type 0) → List Scheduled → Type 0
HasMarked p P [] = ⊥
HasMarked p P (a ∷ l) = ((contains p a.periods ≡ true) × P a) ⊎ HasMarked p P l

-- `t` is not before any archive of the period, and is the start of one, or else `t₀`.
pub record IsLatest (p : String) (t₀ : DateTime) (l : List Scheduled) (t : DateTime) : Type 0 where
  pub at_least : stamp t₀ ≤ stamp t
  pub covers : AllMarked p (λ a. stamp a.start ≤ stamp t) l
  pub attained : (t ≡ t₀) ⊎ HasMarked p (λ a. a.start ≡ t) l

latest : String → DateTime → List Scheduled → DateTime
latest p t [] = t
latest p t (a ∷ l) = latest p (later_of (contains p a.periods) t a.start) l

recent_times-latest :
    (t : Times) (l : List Scheduled)
    → recent_times t l ≡ record {
      daily = latest "daily" t.daily l;
      weekly = latest "weekly" t.weekly l;
      monthly = latest "monthly" t.monthly l;
    }
unfolding recent_times latest
recent_times-latest t [] = refl
recent_times-latest t (a ∷ l) = recent_times-latest (note_archive t a) l

later_of-le : (b : Bool) (t s : DateTime) → stamp t ≤ stamp (later_of b t s)
later_of-le b t s = ground arith

choose :
    (b c : Bool) (t s : DateTime)
    → ((if b && c then s else t) ≡ t) ⊎ ((b ≡ true) × (s ≡ (if b && c then s else t)))
choose true true t s = inr (refl, refl)
choose true false t s = inl refl
choose false c t s = inl refl

latest-IsLatest : (p : String) (t : DateTime) (l : List Scheduled) → IsLatest p t l (latest p t l)
unfolding latest
latest-IsLatest p t [] = record { at_least = omega arith; covers = tt; attained = inl refl }
latest-IsLatest p t (a ∷ l) =
    let t' : DateTime = later_of (contains p a.periods) t a.start in
    let rest = latest-IsLatest p t' l in
    record {
      at_least = omega (arith, later_of-le (contains p a.periods) t a.start, rest.at_least);
      covers = (λ m. ground (arith, m, rest.at_least), rest.covers);
      attained = elim rest.attained [
        | inr later ↦ inr (inr later)
        | inl e ↦ elim (choose (contains p a.periods) (before t a.start) t a.start) [
          | inl same ↦ inl (e ∙ same)
          | inr (marked, here) ↦ inr (inl (marked, here ∙ sym e))
        ]
      ];
    }

-- For each of the three periods, _get_recent_backup_times gives the latest start of an archive that
-- is marked with the period: none of them starts later, and one of them starts then, unless it is
-- datetime.min.
pub recent_times-IsLatest :
    (l : List Scheduled)
    → IsLatest "daily" min_time l (recent_times no_times l).daily
      × IsLatest "weekly" min_time l (recent_times no_times l).weekly
      × IsLatest "monthly" min_time l (recent_times no_times l).monthly
recent_times-IsLatest l = rw recent_times-latest (
  latest-IsLatest "daily" min_time l,
  latest-IsLatest "weekly" min_time l,
  latest-IsLatest "monthly" min_time l,
)

next_monthly_january :
    (last : DateTime)
    → days_in_month last.year (last.month + 1) < last.day
    → next_monthly last ≡ record last { year = last.year + 1; month = 1 }
unfolding next_monthly replace
next_monthly_january last gone = ground arith

-- After a monthly backup on a day that the next month lacks (the 31st of a month before one of 30
-- days, or the end of January), the monthly backup does not count as overdue until an hour past that
-- day of January of the next year.
pub monthly_not_overdue :
    (now : DateTime) (t : Times)
    → days_in_month t.monthly.year (t.monthly.month + 1) < t.monthly.day
    → stamp now ≤ stamp (record t.monthly { year = t.monthly.year + 1; month = 1 }) + seconds 3600
    → contains "monthly" (too_long_since_last_backup now t) ≡ false
unfolding too_long_since_last_backup
monthly_not_overdue now t gone early =
    let e = next_monthly_january t.monthly gone in rw e (ground arith)
