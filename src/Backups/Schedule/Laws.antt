-- ===== src/Backups/Schedule/Laws.antt =====
-- What the schedule relies on of a repository that is local, such as RootBorgRepository: archives have
-- unique names, a new archive is listed by its start, newest first, a deletion takes the archive of
-- that name, and nothing else changes the list. Of one over SSH, `prepared` and `cleaned` need not
-- hold: its `prepare` mounts it and its `cleanup` unmounts it.
use freedom_box.Base.{
  String, ◌≡◌, false, not, some, List, [], ◌∷◌, ◌==◌, if◌then◌else◌, contains, keep_if,
}
use freedom_box.Backups.Dates.{DateTime, before}
use freedom_box.Backups.Schedule.Defs.{Archive, Comment}
use freedom_box.Backups.Schedule.Run.{Repository}

abbrev pub names : List Archive → List String
names [] = []
names (a ∷ l) = a.name ∷ names l

abbrev pub HasUniqueNames : List Archive → Type 0
HasUniqueNames [] = Unit
HasUniqueNames (a ∷ l) = (contains a.name (names l) ≡ false) × HasUniqueNames l

-- sorted(archives, key=start, reverse=True), for one more archive
abbrev pub insert_newest_first : Archive → List Archive → List Archive
insert_newest_first a [] = a ∷ []
insert_newest_first a (b ∷ l) =
    if before a.start b.start then b ∷ insert_newest_first a l else a ∷ b ∷ l

abbrev pub without_name : String → List Archive → List Archive
without_name n = keep_if (λ a. not (a.name == n))

module _ {R : Type 0} where
  pub record IsRepository (repository : Repository R) : Type 0 where
    -- When an archive starts that is made in this state.
    pub started : R → DateTime
    pub prepared :
        (r : R)
        → (repository.prepare r).0 ≡ some tt
        → repository.list_archives (repository.prepare r).1 ≡ repository.list_archives r
    pub unique : (r : R) (l : List Archive) → repository.list_archives r ≡ some l → HasUniqueNames l
    pub created :
        (n : String) (app_ids : List String) (c : Comment) (r : R) (l : List Archive)
        → (repository.create_archive n app_ids c r).0 ≡ some tt
        → repository.list_archives r ≡ some l
        → repository.list_archives (repository.create_archive n app_ids c r).1
          ≡ some (insert_newest_first (record { name = n; start = started r; comment = c }) l)
    pub deleted :
        (n : String) (r : R) (l : List Archive)
        → (repository.delete_archive n r).0 ≡ some tt
        → repository.list_archives r ≡ some l
        → repository.list_archives (repository.delete_archive n r).1 ≡ some (without_name n l)
    pub cleaned :
        (r : R)
        → (repository.cleanup r).0 ≡ some tt
        → repository.list_archives (repository.cleanup r).1 ≡ repository.list_archives r
