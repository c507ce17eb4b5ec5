-- ===== src/Backups/Schedule/Defs.antt =====
-- class Schedule of plinth/modules/backups/schedule.py: its fields and its tests on times. Each
-- datetime.now() of the source is an argument.
use freedom_box.Base.{
  ℕ, ◌+◌, String, Bool, false, ◌&&◌, ◌||◌, not, Option, none, some, List, [], ◌∷◌, ◌++◌, ◌==◌, ltb,
  nat_eq, if◌then◌else◌, contains, keep_if,
}
use freedom_box.Backups.Dates.{
  DateTime, min_time, seconds, stamp, before, differs_less, differs_more, is_sunday, replace,
}

pub record Schedule : Type 0 where
  pub repository_uuid : String
  pub enabled : Bool
  pub daily_to_keep : ℕ
  pub weekly_to_keep : ℕ
  pub monthly_to_keep : ℕ
  pub run_at_hour : ℕ
  pub unselected_apps : List String

abbrev or_default : Option ℕ → ℕ → ℕ
or_default none d = d
or_default (some n) d = n

abbrev or_false : Option Bool → Bool
or_false none = false
or_false (some b) = b

abbrev or_empty : Option (List String) → List String
or_empty none = []
or_empty (some l) = l

-- Schedule.__init__, with its defaults
unfoldable pub init :
    String
    → Option Bool
    → Option ℕ
    → Option ℕ
    → Option ℕ
    → Option ℕ
    → Option (List String)
    → Schedule
init uuid enabled daily weekly monthly hour unselected = record {
  repository_uuid = uuid;
  enabled = or_false enabled;
  daily_to_keep = or_default daily 5;
  weekly_to_keep = or_default weekly 3;
  monthly_to_keep = or_default monthly 3;
  run_at_hour = or_default hour 2;
  unselected_apps = or_empty unselected;
}

-- Schedule.get_storage_format: the stored fields
pub record Stored : Type 0 where
  pub enabled : Bool
  pub daily_to_keep : ℕ
  pub weekly_to_keep : ℕ
  pub monthly_to_keep : ℕ
  pub run_at_hour : ℕ
  pub unselected_apps : List String

unfoldable pub get_storage_format : Schedule → Stored
get_storage_format s = record {
  enabled = s.enabled;
  daily_to_keep = s.daily_to_keep;
  weekly_to_keep = s.weekly_to_keep;
  monthly_to_keep = s.monthly_to_keep;
  run_at_hour = s.run_at_hour;
  unselected_apps = s.unselected_apps;
}

-- What json.loads makes of an archive's comment: text that is not JSON, JSON that is not an object,
-- or an object with its `type`, if that is a text, and its `periods`, if that is a list.
pub data Comment : Type 0 where
  invalid other : Comment
  object : Option String → Option (List String) → Comment

pub record Archive : Type 0 where
  pub name : String
  pub start : DateTime
  pub comment : Comment

-- The periods of a scheduled archive, if the comment has the form that _run_backup writes.
unfoldable pub scheduled_periods : Comment → Option (List String)
scheduled_periods (object (some t) (some periods)) = if t == "scheduled" then some periods else none
scheduled_periods _ = none

pub record Scheduled : Type 0 where
  pub name : String
  pub start : DateTime
  pub periods : List String

scheduled_of : DateTime → Archive → Option (List String) → Option Scheduled
scheduled_of now a none = none
scheduled_of now a (some periods) =
    if before now a.start
    then none
    else some (record { name = a.name; start = a.start; periods = periods })

unfoldable pub scheduled : DateTime → Archive → Option Scheduled
unfolding scheduled_of scheduled_periods
scheduled now a = scheduled_of now a (scheduled_periods a.comment)

abbrev pub cons_some {ℓ} : {A : Type ℓ} → Option A → List A → List A
cons_some none l = l
cons_some (some a) l = a ∷ l

-- The loop of Schedule._list_scheduled_archives
unfoldable pub list_scheduled : DateTime → List Archive → List Scheduled
unfolding scheduled
list_scheduled now [] = []
list_scheduled now (a ∷ rest) = cons_some (scheduled now a) (list_scheduled now rest)

-- The dictionary of the times of the last archives.
pub record Times : Type 0 where
  pub daily : DateTime
  pub weekly : DateTime
  pub monthly : DateTime

abbrev pub later_of : Bool → DateTime → DateTime → DateTime
later_of marked t s = if marked && before t s then s else t

unfoldable pub note_archive : Times → Scheduled → Times
note_archive t a = record {
  daily = later_of (contains "daily" a.periods) t.daily a.start;
  weekly = later_of (contains "weekly" a.periods) t.weekly a.start;
  monthly = later_of (contains "monthly" a.periods) t.monthly a.start;
}

-- The loop of Schedule._get_recent_backup_times
unfoldable pub recent_times : Times → List Scheduled → Times
unfolding note_archive
recent_times t [] = t
recent_times t (a ∷ rest) = recent_times (note_archive t a) rest

abbrev pub no_times : Times
no_times = record { daily = min_time; weekly = min_time; monthly = min_time }

-- Schedule._is_backup_too_soon
unfoldable pub is_backup_too_soon : DateTime → Times → Bool
is_backup_too_soon now t =
    differs_less now t.daily (seconds 7200)
    || (differs_less now t.weekly (seconds 7200) || differs_less now t.monthly (seconds 7200))

abbrev pub or_january : Option DateTime → DateTime → DateTime
or_january (some t) last = t
or_january none last = record last { year = last.year + 1; month = 1 }

-- `next_monthly` of _too_long_since_last_backup. January has as many days as any month has, so the
-- second `replace` does not fail below year 9999.
unfoldable pub next_monthly : DateTime → DateTime
next_monthly last = or_january (replace last last.year (last.month + 1)) last

abbrev pub when : Bool → String → List String
when b p = if b then p ∷ [] else []

-- Schedule._too_long_since_last_backup
unfoldable pub too_long_since_last_backup : DateTime → Times → List String
too_long_since_last_backup now t =
    when (differs_more now t.daily (seconds 90000)) "daily"
    ++ (when (differs_more now t.weekly (seconds 608400)) "weekly"
        ++ when (ltb (stamp (next_monthly t.monthly) + seconds 3600) (stamp now)) "monthly")

-- Schedule._time_for_periods
unfoldable pub time_for_periods : DateTime → Schedule → List String
time_for_periods now s =
    let due = nat_eq now.hour s.run_at_hour in
    when due "daily"
    ++ (when (due && is_sunday now) "weekly" ++ when (due && nat_eq now.day 1) "monthly")

-- Schedule._get_disabled_periods
unfoldable pub disabled_periods : Schedule → List String
disabled_periods s =
    when (nat_eq s.daily_to_keep 0) "daily"
    ++ (when (nat_eq s.weekly_to_keep 0) "weekly" ++ when (nat_eq s.monthly_to_keep 0) "monthly")

-- set(too_long_periods).union(time_for_periods).difference(disabled_periods), as the sorted list
-- that _run_backup makes of it
unfoldable pub due_periods : List String → List String → List String → List String
due_periods too_long time_for disabled =
    keep_if (λ p. (contains p too_long || contains p time_for) && not (contains p disabled))
      ("daily" ∷ "monthly" ∷ "weekly" ∷ [])
