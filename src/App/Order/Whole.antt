-- ===== src/App/Order/Whole.antt =====
-- _sort_apps lists every app where the dependencies are all there and have no cycle.
use freedom_box.Base.{
  ℕ, suc, String, ◌≡◌, ◌⊎◌, inl, inr, refl, subst, Bool, true, false, Bool-cases, Option, none,
  some, List, [], ◌∷◌, ◌++◌, arith, ◌==◌, not, eq_iff, contains, length, if◌then◌else◌,
}
use freedom_box.Dict.{Dict, lookup}
use freedom_box.Dict.Laws.{lookup-remove_self, length-remove-lt}
use freedom_box.App.Order.Defs.{Info, State, sort_one, sort_loop, sorted_ids, sort_apps, ids_if}
use freedom_box.App.Order.Grows.{
  AreAll, IsOrdered, IsValid, taken, taken-IsValid, Grows-taken, Keeps-taken,
}
use freedom_box.App.Order.Insert.{After}
use freedom_box.App.Order.Sort.{start, start-IsValid, After-call_for}
use freedom_box.App.Order.Complete.{IsRanked, Has-taken, insert_apps-IsDoneCall}

-- Every app is in the list or still to be taken.
abbrev HasAll : Dict Info → State → Type 0
HasAll apps s =
    (x : String) (j : Info)
    → lookup x apps ≡ some j
    → (contains x s.ordered ≡ true) ⊎ (lookup x s.remaining ≡ some j)

-- An ID that is an app's is in the list.
abbrev IsListed : Dict Info → State → String → Type 0
IsListed apps s id = (i : Info) → lookup id apps ≡ some i → contains id s.ordered ≡ true

record Placed (apps : Dict Info) (ids : List String) (s : State) (o : Option State) : Type 0 where
  state : State
  reached : o ≡ some state
  valid : IsValid apps state
  has : HasAll apps state
  stays : (x : String) → contains x s.ordered ≡ true → contains x state.ordered ≡ true
  listed : AreAll (IsListed apps state) ids

module _ (rank : String → ℕ) (apps : Dict Info) (ranked : IsRanked rank apps) where
  Placed-sort_one :
      (id : String) (s : State) (o : Option Info)
      → lookup id s.remaining ≡ o
      → IsValid apps s
      → HasAll apps s
      → Placed apps (id ∷ []) s (sort_one id s o)
  Placed-sort_one id s none e v h = record {
    state = s;
    reached = refl;
    valid = v;
    has = h;
    stays = λ x there. there;
    listed = (λ i is_app. elim (h id i is_app) [ inl there ↦ there | inr left ↦ cc ], tt);
  }
  Placed-sort_one id s (some i) e v h =
      let (s₁, e₁) =
        insert_apps-IsDoneCall rank apps ranked (suc (length s.remaining)) id i (taken id s)
          (v.known id i e) (taken-IsValid id s v) (lookup-remove_self id s.remaining)
          (v.apart id i e) (omega (arith, length-remove-lt id i s.remaining e))
          (Has-taken rank apps ranked (suc (rank id)) id s (omega arith) (λ x j k lt. h x j k)) in
      let (v₁, g, k, there) =
        subst (After apps id (taken id s)) e₁ (After-call_for apps id i s v e) in
      let g' = Grows-taken id i s s₁ e g in
      let k' = Keeps-taken id s s₁ there k in
      record {
        state = s₁;
        reached = rw e₁;
        valid = v₁;
        has = λ x j is_app. elim (h x j is_app) [
          | inl listed ↦ inl (g'.stays x listed)
          | inr left ↦ k'.kept x j left
        ];
        stays = g'.stays;
        listed = (λ _ _. there, tt);
      }

  Placed-sort_loop :
      (ids : List String) (s : State)
      → IsValid apps s
      → HasAll apps s
      → Placed apps ids s (sort_loop ids s)
  unfolding sort_loop
  Placed-sort_loop [] s v h = record {
    state = s;
    reached = refl;
    valid = v;
    has = h;
    stays = λ x there. there;
    listed = tt;
  }
  Placed-sort_loop (id ∷ ids) s v h =
      let one = Placed-sort_one id s _ refl v h in
      let more = Placed-sort_loop ids one.state one.valid one.has in
      record {
        state = more.state;
        reached = rw one.reached more.reached;
        valid = more.valid;
        has = more.has;
        stays = λ x there. more.stays x (one.stays x there);
        listed = (λ i is_app. more.stays id (one.listed.0 i is_app), more.listed);
      }

AreAll-append :
    (P : String → Type 0) (xs ys : List String) → AreAll P (xs ++ ys) → AreAll P xs × AreAll P ys
AreAll-append P [] ys h = (tt, h)
AreAll-append P (x ∷ xs) ys h = let (l, r) = AreAll-append P xs ys h.1 in ((h.0, l), r)

AreAll-tail :
    (P : String → Type 0) (t : Bool) (id : String) (rest : List String)
    → AreAll P (if t then id ∷ rest else rest)
    → AreAll P rest
AreAll-tail P true id rest h = h.1
AreAll-tail P false id rest h = h

AreAll-head :
    (P : String → Type 0) (t : Bool) (id : String) (rest : List String)
    → t ≡ true
    → AreAll P (if t then id ∷ rest else rest)
    → P id
AreAll-head P true id rest e h = h.0
AreAll-head P false id rest e h = absurd (ground arith)

AreAll-ids_if :
    (P : String → Type 0) (b : Bool) (apps : Dict Info) (x : String) (i : Info)
    → AreAll P (ids_if b apps)
    → lookup x apps ≡ some i
    → i.is_essential ≡ b
    → P x
AreAll-ids_if P b [] x i h e k = absurd (ground arith)
AreAll-ids_if P b ((id, info) ∷ apps) x i h e k =
    let t = if b then info.is_essential else not info.is_essential in
    elim (Bool-cases (id == x)) [
      | inl same ↦
          subst P ((eq_iff id x).0 same) (AreAll-head P t id (ids_if b apps) (ground arith) h)
      | inr other ↦
          AreAll-ids_if P b apps x i (AreAll-tail P t id (ids_if b apps) h) (rw other at e) k
    ]

-- When every dependency is an app and no app depends on itself through others (a rank puts each
-- dependency below its app), the sort lists every app, once, behind everything that it depends on.
pub sort_apps_complete :
    (rank : String → ℕ) (apps : Dict Info)
    → IsRanked rank apps
    → (s : State) × (sort_apps apps ≡ some s)
      × IsOrdered apps [] s.ordered
      × ((x : String) (i : Info) → lookup x apps ≡ some i → contains x s.ordered ≡ true)
unfolding sort_apps sorted_ids
sort_apps_complete rank apps ranked =
    let placed =
      Placed-sort_loop rank apps ranked (sorted_ids apps) (start apps) (start-IsValid apps)
        (λ x j e. inr e) in
    let (essential, others) =
      AreAll-append (IsListed apps placed.state) (ids_if true apps) (ids_if false apps)
        placed.listed in
    (
      placed.state,
      placed.reached,
      placed.valid.ordered,
      λ x i e. elim (Bool-cases i.is_essential) [
        | inl k ↦ AreAll-ids_if (IsListed apps placed.state) true apps x i essential e k i e
        | inr k ↦ AreAll-ids_if (IsListed apps placed.state) false apps x i others e k i e
      ],
    )
