-- ===== src/Names/Defs.antt =====
-- DomainType and DomainName of plinth/modules/names/components.py. Python's order of texts and its text
-- of a number are arguments.
use freedom_box.Base.{
  ℕ, String, Bool, true, false, ◌&&◌, ◌||◌, Option, none, some, List, [], ◌∷◌, ltb, nat_eq,
  if◌then◌else◌, contains, keep_if, map,
}
use freedom_box.Dict.{Dict, insert, remove, keys, values, lookup}

-- DomainType.__init__
pub record DomainType : Type 0 where
  pub display_name : String
  pub configuration_url : Option String
  pub edit_url : Option String
  pub delete_url : Option String
  pub add_url : Option String
  pub can_have_certificate : Bool
  pub priority : ℕ

-- An element of `services` as given, and the services after DomainName.__init__.
pub data Service : Type 0 where
  text : String → Service
  port : ℕ → Service

pub data Services : Type 0 where
  all : Services
  listed : List String → Services

pub record DomainName : Type 0 where
  pub name : String
  pub domain_type : DomainType
  pub services : Services

-- The ports of _SERVICES, in its order
unfoldable pub known_ports : Dict ℕ
known_ports = ("http", 80) ∷ ("https", 443) ∷ ("ssh", 22) ∷ []

unfoldable pub service_of_port : (ℕ → String) → ℕ → Dict ℕ → String
service_of_port str n [] = str n
service_of_port str n ((id, p) ∷ rest) = if nat_eq p n then id else service_of_port str n rest

-- DomainName._normalize_service
unfoldable pub normalize_service : (ℕ → String) → Service → String
unfolding known_ports service_of_port
normalize_service str (text s) = s
normalize_service str (port n) = service_of_port str n known_ports

-- DomainName._normalize_services; `none` is '__all__'.
unfoldable pub normalize_services : (ℕ → String) → Option (List Service) → Services
unfolding normalize_service
normalize_services str none = all
normalize_services str (some l) = listed (map (normalize_service str) l)

-- DomainName.__init__, where `none` is the KeyError of DomainType.get, and the new `_all`
abbrev pub added : String → DomainName → Dict DomainName → Dict DomainName
added id d domains = insert id d domains

unfoldable pub init :
    (ℕ → String)
    → Dict DomainType
    → String
    → String
    → String
    → Option (List Service)
    → Dict DomainName
    → Option (Dict DomainName)
unfolding normalize_services
init str types id name type_id services domains = elim (lookup type_id types) [
  | none ↦ none
  | some t ↦ some (
      added id (record { name = name; domain_type = t; services = normalize_services str services })
        domains)
]

-- DomainName.remove
unfoldable pub remove_domain : String → Dict DomainName → Dict DomainName
remove_domain id domains = remove id domains

-- DomainName.has_service
unfoldable pub has_service : Option String → DomainName → Bool
has_service none d = true
has_service (some s) d = elim d.services [ all ↦ true | listed l ↦ contains s l ]

-- `sorted`, which is stable, by a test for the order
module _ {A : Type 0} (before : A → A → Bool) where
  abbrev pub insert_sorted : A → List A → List A
  insert_sorted x [] = x ∷ []
  insert_sorted x (y ∷ l) =
      let rest = insert_sorted x l in if before x y then x ∷ y ∷ l else y ∷ rest

  abbrev pub sorted : List A → List A
  sorted [] = []
  sorted (x ∷ l) = insert_sorted x (sorted l)

-- DomainType.list: higher priorities first
abbrev pub type_before : String × DomainType → String × DomainType → Bool
type_before a b = if ltb a.1.priority b.1.priority then false else true

unfoldable pub list_types : Dict DomainType → Dict DomainType
list_types types = sorted type_before types

-- The loop of DomainName.list_names
unfoldable pub names_loop : List DomainName → Dict Bool → Dict Bool
names_loop [] names = names
names_loop (d ∷ ds) names = names_loop ds (insert d.name true names)

module _ (le : String → String → Bool) where
  -- (-a.domain_type.priority, a.name) <= (-b.domain_type.priority, b.name)
  abbrev pub domain_before : DomainName → DomainName → Bool
  domain_before a b =
      ltb b.domain_type.priority a.domain_type.priority
      || nat_eq a.domain_type.priority b.domain_type.priority && le a.name b.name

  -- DomainName.list
  unfoldable pub list_domains : Dict DomainName → Option String → List DomainName
  unfolding has_service
  list_domains domains service =
      sorted domain_before (keep_if (has_service service) (values domains))

  -- DomainName.list_names
  unfoldable pub list_names : Dict DomainName → Option String → List String
  unfolding names_loop list_domains
  list_names domains service = keys (names_loop (list_domains domains service) [])
