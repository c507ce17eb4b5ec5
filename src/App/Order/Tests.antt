-- ===== src/App/Order/Tests.antt =====
-- The sort at four apps, one of which depends on an app that is missing.
use freedom_box.Base.{
  Option, none, List, ℕ, ◌<◌, String, ◌≡◌, refl, true, false, some, [], ◌∷◌, arith, contains, ◌==◌,
  if◌then◌else◌, inl, inr, Bool-cases, eq_iff, some-injective, subst,
}
use freedom_box.Dict.{Dict, lookup}
use freedom_box.App.Order.Defs.{Info, State, sort_apps}
use freedom_box.App.Order.Grows.{IsOrdered, AreAll}
use freedom_box.App.Order.Sort.{sort_apps-IsOrdered}
use freedom_box.App.Order.Complete.{IsRanked}
use freedom_box.App.Order.Whole.{sort_apps_complete}

abbrev apache : Info
apache = record { is_essential = true; depends = "firewall" ∷ [] }

abbrev firewall : Info
firewall = record { is_essential = true; depends = [] }

abbrev three_apps : Dict Info
three_apps =
    ("wiki", record { is_essential = false; depends = "apache" ∷ [] })
    ∷ ("apache", apache)
    ∷ ("firewall", firewall)
    ∷ []

abbrev four_apps : Dict Info
four_apps = ("broken", record { is_essential = false; depends = "missing" ∷ [] }) ∷ three_apps

sort_apps-IsOrdered_example :
    (s : State) × (sort_apps four_apps ≡ some s) × IsOrdered four_apps [] s.ordered
sort_apps-IsOrdered_example = sort_apps-IsOrdered four_apps

abbrev rank : String → ℕ
rank x = if x == "firewall" then 0 else if x == "apache" then 1 else 2

-- What holds of each entry holds of what is looked up.
abbrev OfEntries : (String → Info → Type 0) → Dict Info → Type 0
OfEntries P [] = Unit
OfEntries P ((x, i) ∷ d) = P x i × OfEntries P d

lookup-OfEntries :
    (P : String → Info → Type 0) (d : Dict Info) (x : String) (i : Info)
    → OfEntries P d
    → lookup x d ≡ some i
    → P x i
lookup-OfEntries P [] x i h e = absurd (ground arith)
lookup-OfEntries P ((y, j) ∷ d) x i h e = elim (Bool-cases (y == x)) [
  | inl same ↦
      subst (P x) (some-injective j i (rw same at e)) (subst (λ z. P z j) ((eq_iff y x).0 same) h.0)
  | inr other ↦ lookup-OfEntries P d x i h.1 (rw other at e)
]

three_apps-IsRanked : IsRanked rank three_apps
three_apps-IsRanked x i e =
    lookup-OfEntries
      (λ y j.
        AreAll (λ d. ((k : Info) × (lookup d three_apps ≡ some k)) × (rank d < rank y)) j.depends)
      three_apps x i
      ((((apache, refl), omega arith), tt), ((((firewall, refl), omega arith), tt), (tt, tt))) e

sort_apps_complete_example :
    (s : State) × (sort_apps three_apps ≡ some s)
    × IsOrdered three_apps [] s.ordered
    × ((x : String) (i : Info) → lookup x three_apps ≡ some i → contains x s.ordered ≡ true)
sort_apps_complete_example = sort_apps_complete rank three_apps three_apps-IsRanked

ordered_of : Option State → List String
ordered_of none = []
ordered_of (some s) = s.ordered

-- An essential app goes first, behind what it depends on; an app with a missing dependency is left out.
sort_four_apps : ordered_of (sort_apps four_apps) ≡ "firewall" ∷ "apache" ∷ "wiki" ∷ []
unfolding ordered_of sort_apps
sort_four_apps = refl
