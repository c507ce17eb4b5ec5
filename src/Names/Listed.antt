-- ===== src/Names/Listed.antt =====
-- The order of DomainName.list, and the names of DomainName.list_names.
use freedom_box.Base.{
  String, ◌≡◌, ◌<◌, ◌⊎◌, refl, ap, ◌∙◌, Bool, true, false, Bool-cases, inl, inr, ◌&&◌, ◌||◌, Option,
  List, [], ◌∷◌, ◌==◌, arith, eq_iff, contains, any, keep_if,
}
use mathlib.Core.List.{Permᴰ}
use mathlib.Core.List.Permᴰ
use freedom_box.Dict.{Dict, keys, values, insert}
use freedom_box.Names.Defs.{
  DomainName, has_service, insert_sorted, sorted, domain_before, list_domains, names_loop,
  list_names,
}

-- An order that decides any two texts, as Python's is.
pub record IsOrder (le : String → String → Bool) : Type 0 where
  pub total : (a b : String) → (le a b || le b a) ≡ true
  pub trans : (a b c : String) → le a b ≡ true → le b c ≡ true → le a c ≡ true

module _ {A : Type 0} (before : A → A → Bool) where
  abbrev pub AllAfter : A → List A → Type 0
  AllAfter x [] = Unit
  AllAfter x (y ∷ l) = (before x y ≡ true) × AllAfter x l

  -- Each element comes before all that follow.
  abbrev pub IsSorted : List A → Type 0
  IsSorted [] = Unit
  IsSorted (x ∷ l) = AllAfter x l × IsSorted l

  pub insert_sorted-Permᴰ : (x : A) (l : List A) → Permᴰ (insert_sorted before x l) (x ∷ l)
  insert_sorted-Permᴰ x [] = Permᴰ.refl (x ∷ [])
  insert_sorted-Permᴰ x (y ∷ l) = elim (Bool-cases (before x y)) [
    | inl first ↦ rw first (Permᴰ.refl (x ∷ y ∷ l))
    | inr later ↦
        rw later (Permᴰ.trans (Permᴰ.cons refl (insert_sorted-Permᴰ x l)) (Permᴰ.swap refl refl))
  ]

  pub sorted-Permᴰ : (l : List A) → Permᴰ (sorted before l) l
  sorted-Permᴰ [] = Permᴰ.nil
  sorted-Permᴰ (x ∷ l) =
      Permᴰ.trans (insert_sorted-Permᴰ x (sorted before l)) (Permᴰ.cons refl (sorted-Permᴰ l))

  module _ (total : (x y : A) → (before x y || before y x) ≡ true)
      (trans : (x y z : A) → before x y ≡ true → before y z ≡ true → before x z ≡ true) where
    AllAfter-trans : (x y : A) (l : List A) → before x y ≡ true → AllAfter y l → AllAfter x l
    AllAfter-trans x y [] e h = tt
    AllAfter-trans x y (z ∷ l) e h = (trans x y z e h.0, AllAfter-trans x y l e h.1)

    AllAfter-insert_sorted :
        (x y : A) (l : List A)
        → before y x ≡ true
        → AllAfter y l
        → AllAfter y (insert_sorted before x l)
    AllAfter-insert_sorted x y [] e h = (e, tt)
    AllAfter-insert_sorted x y (z ∷ l) e h = elim (Bool-cases (before x z)) [
      | inl first ↦ rw first (e, h)
      | inr later ↦ rw later (h.0, AllAfter-insert_sorted x y l e h.1)
    ]

    insert_sorted-IsSorted : (x : A) (l : List A) → IsSorted l → IsSorted (insert_sorted before x l)
    insert_sorted-IsSorted x [] h = (tt, tt)
    insert_sorted-IsSorted x (y ∷ l) h = elim (Bool-cases (before x y)) [
      | inl first ↦ rw first ((first, AllAfter-trans x y l first h.0), h)
      | inr later ↦ rw later (
        AllAfter-insert_sorted x y l (ground (arith, total x y)) h.0,
        insert_sorted-IsSorted x l h.1,
      )
    ]

    pub sorted-IsSorted : (l : List A) → IsSorted (sorted before l)
    sorted-IsSorted [] = tt
    sorted-IsSorted (x ∷ l) = insert_sorted-IsSorted x (sorted before l) (sorted-IsSorted l)

module _ (le : String → String → Bool) (laws : IsOrder le) where
  domain_before_total : (a b : DomainName) → (domain_before le a b || domain_before le b a) ≡ true
  domain_before_total a b = ground (arith, laws.total a.name b.name)

  domain_before_trans :
      (a b c : DomainName)
      → domain_before le a b ≡ true
      → domain_before le b c ≡ true
      → domain_before le a c ≡ true
  domain_before_trans a b c e h = ground (arith, laws.trans a.name b.name c.name)

-- A domain stands before another: its type's priority is higher, or the same and its name is not
-- greater.
abbrev pub Precedes : (String → String → Bool) → DomainName → DomainName → Type 0
Precedes le a b =
    (b.domain_type.priority < a.domain_type.priority)
    ⊎ ((a.domain_type.priority ≡ b.domain_type.priority) × (le a.name b.name ≡ true))

abbrev pub PrecedesAll : (String → String → Bool) → DomainName → List DomainName → Type 0
PrecedesAll le a [] = Unit
PrecedesAll le a (b ∷ l) = Precedes le a b × PrecedesAll le a l

-- Each domain stands before all that follow.
abbrev pub IsInOrder : (String → String → Bool) → List DomainName → Type 0
IsInOrder le [] = Unit
IsInOrder le (a ∷ l) = PrecedesAll le a l × IsInOrder le l

module _ (le : String → String → Bool) where
  domain_before-Precedes : (a b : DomainName) → domain_before le a b ≡ true → Precedes le a b
  domain_before-Precedes a b e = ground arith

  AllAfter-PrecedesAll :
      (a : DomainName) (l : List DomainName) → AllAfter (domain_before le) a l → PrecedesAll le a l
  AllAfter-PrecedesAll a [] h = tt
  AllAfter-PrecedesAll a (b ∷ l) h = (domain_before-Precedes a b h.0, AllAfter-PrecedesAll a l h.1)

  IsSorted-IsInOrder : (l : List DomainName) → IsSorted (domain_before le) l → IsInOrder le l
  IsSorted-IsInOrder [] h = tt
  IsSorted-IsInOrder (a ∷ l) h = (AllAfter-PrecedesAll a l h.0, IsSorted-IsInOrder l h.1)

-- When the order decides any two texts: DomainName.list has exactly the domains with the service, and
-- of any two of them the first has the higher priority, or both have the same priority and the first
-- has a name that is not greater.
pub list_domains-IsInOrder :
    (le : String → String → Bool) (laws : IsOrder le) (domains : Dict DomainName)
    (service : Option String)
    → Permᴰ (list_domains le domains service) (keep_if (has_service service) (values domains))
      × IsInOrder le (list_domains le domains service)
unfolding list_domains
list_domains-IsInOrder le laws domains service =
    let l = keep_if (has_service service) (values domains) in
    (
      sorted-Permᴰ (domain_before le) l,
      IsSorted-IsInOrder le (sorted (domain_before le) l) (
          sorted-IsSorted (domain_before le) (domain_before_total le laws)
            (domain_before_trans le laws) l),
    )

abbrev has_name : String → List DomainName → Bool
has_name n = any (λ d. d.name == n)

any-insert_sorted :
    (before : DomainName → DomainName → Bool) (n : String) (x : DomainName) (l : List DomainName)
    → has_name n (insert_sorted before x l) ≡ (x.name == n || has_name n l)
any-insert_sorted before n x [] = refl
any-insert_sorted before n x (y ∷ l) = ground (arith, any-insert_sorted before n x l)

any-sorted :
    (before : DomainName → DomainName → Bool) (n : String) (l : List DomainName)
    → has_name n (sorted before l) ≡ has_name n l
any-sorted before n [] = refl
any-sorted before n (x ∷ l) =
    any-insert_sorted before n x (sorted before l)
    ∙ ap (λ b. x.name == n || b) (any-sorted before n l)

contains-insert :
    (n k : String) (b : Bool) (names : Dict Bool)
    → contains n (keys (insert k b names)) ≡ (k == n || contains n (keys names))
contains-insert n k b [] = refl
contains-insert n k b ((j, v) ∷ names) =
    ground (arith, contains-insert n k b names, eq_iff j k, eq_iff k n, eq_iff j n)

contains-names_loop :
    (n : String) (ds : List DomainName) (names : Dict Bool)
    → contains n (keys (names_loop ds names)) ≡ (has_name n ds || contains n (keys names))
unfolding names_loop
contains-names_loop n [] names = refl
contains-names_loop n (d ∷ ds) names = ground (
  arith,
  contains-names_loop n ds (insert d.name true names),
  contains-insert n d.name true names,
)

any-keep_if :
    (service : Option String) (n : String) (l : List DomainName)
    → has_name n (keep_if (has_service service) l)
      ≡ any (λ d. has_service service d && d.name == n) l
any-keep_if service n [] = refl
any-keep_if service n (d ∷ l) = ground (arith, any-keep_if service n l)

-- Each text stands once.
abbrev pub HasNoRepeats : List String → Type 0
HasNoRepeats [] = Unit
HasNoRepeats (x ∷ l) = (contains x l ≡ false) × HasNoRepeats l

HasNoRepeats-insert :
    (k : String) (b : Bool) (names : Dict Bool)
    → HasNoRepeats (keys names)
    → HasNoRepeats (keys (insert k b names))
HasNoRepeats-insert k b [] h = (refl, tt)
HasNoRepeats-insert k b ((j, v) ∷ names) h = elim (Bool-cases (j == k)) [
  | inl same ↦ rw same h
  | inr other ↦ rw other (
    ground (arith, contains-insert j k b names, eq_iff j k, eq_iff k j, h.0),
    HasNoRepeats-insert k b names h.1,
  )
]

names_loop-HasNoRepeats :
    (ds : List DomainName) (names : Dict Bool)
    → HasNoRepeats (keys names)
    → HasNoRepeats (keys (names_loop ds names))
unfolding names_loop
names_loop-HasNoRepeats [] names h = h
names_loop-HasNoRepeats (d ∷ ds) names h =
    names_loop-HasNoRepeats ds (insert d.name true names) (HasNoRepeats-insert d.name true names h)

-- DomainName.list_names has each name once, and a name exactly when a domain of that name has the
-- service.
pub list_names-HasNoRepeats :
    (le : String → String → Bool) (domains : Dict DomainName) (service : Option String)
    → HasNoRepeats (list_names le domains service)
      × ((n : String)
          → contains n (list_names le domains service)
            ≡ any (λ d. has_service service d && d.name == n) (values domains))
unfolding list_names list_domains
list_names-HasNoRepeats le domains service =
    let l = keep_if (has_service service) (values domains) in
    (
      names_loop-HasNoRepeats (sorted (domain_before le) l) [] tt,
      λ n. ground (
        arith,
        contains-names_loop n (sorted (domain_before le) l) [],
        any-sorted (domain_before le) n l,
        any-keep_if service n (values domains),
      ),
    )
