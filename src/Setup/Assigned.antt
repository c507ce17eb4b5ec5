-- ===== src/Setup/Assigned.antt =====
-- What the loops of ForceUpgrader put into their sets and dictionaries.
use freedom_box.Base.{
  String, ◌≡◌, ◌∙◌, ap, refl, Bool, true, false, Bool-cases, inl, inr, ◌&&◌, ◌||◌, Option, none,
  some, List, [], ◌∷◌, ◌==◌, eq_iff, arith, if◌then◌else◌, contains,
}
use freedom_box.Dict.{Dict, lookup, insert, keys}
use freedom_box.Dict.Laws.{lookup-insert}
use freedom_box.Packages.Known.{or_old, keep_version}
use freedom_box.Setup.Managed.{
  set_add, set_update, or_empty, apps_of, add_app, packages_of, assign_to, assign_one, assign,
}

contains-set_add :
    (x y : String) (xs : List String) → contains x (set_add y xs) ≡ (y == x || contains x xs)
contains-set_add x y xs = elim (Bool-cases (contains y xs)) [
  | inl there ↦ elim (Bool-cases (y == x)) [
    | inl same ↦
        let e = ap (λ z. contains z xs) ((eq_iff y x).0 same) in ground (arith, there, same)
    | inr other ↦ ground (arith, there, other)
  ]
  | inr gone ↦ ground (arith, gone)
]

pub contains-set_update :
    (x : String) (ys xs : List String)
    → contains x (set_update ys xs) ≡ (contains x ys || contains x xs)
contains-set_update x [] xs = refl
contains-set_update x (y ∷ ys) xs =
    ground (arith, contains-set_update x ys (set_add y xs), contains-set_add x y xs)

or_empty-if :
    {A : Type 0} (b : Bool) (xs : List A) (o : Option (List A))
    → or_empty (if b then some xs else o) ≡ (if b then xs else or_empty o)
or_empty-if true xs o = refl
or_empty-if false xs o = refl

apps_of-insert :
    (p q : String) (ids : List String) (m : Dict (List String))
    → apps_of p (insert q ids m) ≡ (if q == p then ids else apps_of p m)
apps_of-insert p q ids m =
    ap or_empty (lookup-insert q p ids m) ∙ or_empty-if (q == p) ids (lookup p m)

pub contains-add_app :
    (p i id : String) (ps : List String) (m : Dict (List String))
    → contains i (apps_of p (add_app id ps m))
      ≡ (id == i && contains p ps || contains i (apps_of p m))
contains-add_app p i id [] m = ground arith
contains-add_app p i id (q ∷ ps) m =
    let ih = contains-add_app p i id ps (insert q (set_add id (apps_of q m)) m) in
    let e = apps_of-insert p q (set_add id (apps_of q m)) m in
    let add = contains-set_add i id (apps_of q m) in
    elim (Bool-cases (q == p)) [
      | inl same ↦
          let e' : contains i (apps_of p (insert q (set_add id (apps_of q m)) m))
              ≡ (id == i || contains i (apps_of q m)) =
            rw (e, same) add in
          let f : contains i (apps_of q m) ≡ contains i (apps_of p m) =
            ap (λ z. contains i (apps_of z m)) ((eq_iff q p).0 same) in
          ground (arith, same)
      | inr other ↦
          let e' : contains i (apps_of p (insert q (set_add id (apps_of q m)) m))
              ≡ contains i (apps_of p m) =
            rw (e, other) refl in
          ground (arith, other)
    ]

packages_of-insert :
    (i j : String) (ps : Dict String) (apps : Dict (Dict String))
    → packages_of i (insert j ps apps) ≡ (if j == i then ps else packages_of i apps)
packages_of-insert i j ps apps =
    ap or_empty (lookup-insert j i ps apps) ∙ or_empty-if (j == i) ps (lookup i apps)

lookup-assign_to :
    (i p q v : String) (ids : List String) (apps : Dict (Dict String))
    → lookup p (packages_of i (assign_to q v ids apps))
      ≡ (if contains i ids && q == p then some v else lookup p (packages_of i apps))
lookup-assign_to i p q v [] apps = refl
lookup-assign_to i p q v (j ∷ ids) apps =
    let ih = lookup-assign_to i p q v ids (insert j (insert q v (packages_of j apps)) apps) in
    let e = packages_of-insert i j (insert q v (packages_of j apps)) apps in
    elim (Bool-cases (j == i)) [
      | inl same ↦
          let f : lookup p (packages_of j apps) ≡ lookup p (packages_of i apps) =
            ap (λ z. lookup p (packages_of z apps)) ((eq_iff j i).0 same) in
          let e' : lookup p (packages_of i (insert j (insert q v (packages_of j apps)) apps))
              ≡ lookup p (insert q v (packages_of j apps)) =
            rw (e, same) refl in
          ground (arith, same, lookup-insert q p v (packages_of j apps))
      | inr other ↦
          let e' : lookup p (packages_of i (insert j (insert q v (packages_of j apps)) apps))
              ≡ lookup p (packages_of i apps) =
            rw (e, other) refl in
          ground (arith, other)
    ]

lookup-assign_one :
    (i p q : String) (o : Option String) (ids : List String) (apps : Dict (Dict String))
    → lookup p (packages_of i (assign_one q o ids apps)) ≡ (
        if contains i ids && q == p
        then or_old o (lookup p (packages_of i apps))
        else lookup p (packages_of i apps))
lookup-assign_one i p q none ids apps = ground arith
lookup-assign_one i p q (some v) ids apps = lookup-assign_to i p q v ids apps

-- What the packages of the app have after the loop.
pub lookup-assign :
    (i p : String) (conffiles : Dict String) (m : Dict (List String)) (ps : List String)
    (apps : Dict (Dict String))
    → lookup p (packages_of i (assign conffiles m ps apps)) ≡ (
        if contains i (apps_of p m) && contains p ps
        then or_old (lookup p conffiles) (lookup p (packages_of i apps))
        else lookup p (packages_of i apps))
unfolding assign
lookup-assign i p conffiles m [] apps = ground arith
lookup-assign i p conffiles m (q ∷ ps) apps =
    let ih =
      lookup-assign i p conffiles m ps (assign_one q (lookup q conffiles) (apps_of q m) apps) in
    let one = lookup-assign_one i p q (lookup q conffiles) (apps_of q m) apps in
    elim (Bool-cases (q == p)) [
      | inl same ↦
          let mid =
            lookup p (packages_of i (assign_one q (lookup q conffiles) (apps_of q m) apps)) in
          let old = lookup p (packages_of i apps) in
          let e = (eq_iff q p).0 same in
          let f : contains i (apps_of q m) ≡ contains i (apps_of p m) =
            ap (λ z. contains i (apps_of z m)) e in
          elim (Bool-cases (contains i (apps_of p m))) [
            | inl there ↦
                let fresh : mid ≡ or_old (lookup q conffiles) old =
                  one ∙ rw (f ∙ there, same) refl in
                let fresh' : mid ≡ or_old (lookup p conffiles) old =
                  fresh ∙ ap (λ z. or_old (lookup z conffiles) old) e in
                rw (ih, there, same)
                  (keep_version (contains p ps) (lookup p conffiles) old mid fresh')
            | inr gone ↦ let fresh : mid ≡ old = one ∙ rw (f ∙ gone) refl in rw (ih, gone) fresh
          ]
      | inr other ↦ ground (arith, other)
    ]

pub contains-keys :
    {V : Type 0} (p : String) (d : Dict V) → contains p (keys d) ≡ false → lookup p d ≡ none
contains-keys p [] e = refl
contains-keys p ((q, v) ∷ d) e = ground (arith, contains-keys p d)
