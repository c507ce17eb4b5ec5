-- ===== src/Names/Tests.antt =====
-- Three domains, two of which have the same name.
use freedom_box.Base.{ℕ, String, ◌≡◌, refl, Bool, true, none, some, List, [], ◌∷◌, keep_if}
use mathlib.Core.List.{Permᴰ}
use freedom_box.Dict.{Dict, values}
use freedom_box.Names.Defs.{
  DomainType, DomainName, listed, text, port, normalize_services, normalize_service,
  service_of_port, known_ports, has_service, list_domains, list_names, names_loop,
}
use freedom_box.Names.Listed.{IsInOrder, list_domains-IsInOrder}

abbrev domain_type : ℕ → DomainType
domain_type priority = record {
  display_name = "";
  configuration_url = none;
  edit_url = none;
  delete_url = none;
  add_url = none;
  can_have_certificate = true;
  priority = priority;
}

abbrev domain : String → ℕ → List String → DomainName
domain name priority services = record {
  name = name;
  domain_type = domain_type priority;
  services = listed services;
}

abbrev domains : Dict DomainName
domains =
    ("domain-a", domain "a.example" 40 ("http" ∷ []))
    ∷ ("domain-b", domain "b.example" 90 ("http" ∷ "ssh" ∷ []))
    ∷ ("domain-c", domain "a.example" 60 ("http" ∷ []))
    ∷ ("domain-d", domain "d.onion" 90 ("ssh" ∷ []))
    ∷ []

-- An order in which every text is as great as every other.
abbrev any_order : String → String → Bool
any_order a b = true

names_for_http : list_names any_order domains (some "http") ≡ "b.example" ∷ "a.example" ∷ []
unfolding list_names list_domains has_service names_loop
names_for_http = refl

list_domains-IsInOrder_example :
    Permᴰ
      (list_domains any_order domains (some "http"))
      (keep_if (has_service (some "http")) (values domains))
    × IsInOrder any_order (list_domains any_order domains (some "http"))
list_domains-IsInOrder_example =
    list_domains-IsInOrder any_order (record { total = λ a b. refl; trans = λ a b c e h. refl })
      domains (some "http")

normalized :
    (normalize_services (λ n. "other") (some (port 80 ∷ text "xmpp" ∷ port 9 ∷ [])))
    ≡ listed ("http" ∷ "xmpp" ∷ "other" ∷ [])
unfolding normalize_services normalize_service service_of_port known_ports
normalized = refl
