-- ===== src/Firewall/Tests.antt =====
-- Two apps that share a port, over zones in memory.
use freedom_box.Base.{
  String, ◌≡◌, refl, sym, subst, Bool-cases, inl, inr, some-injective, true, false, ◌&&◌, ◌||◌, not,
  List, [], ◌∷◌, ◌==◌, arith, eq_iff, contains, keep_if,
}
use freedom_box.Firewall.Defs.{
  Zone, internal, external, same_zone, Firewalld, IsFirewalld, Firewall, World, serves, enable,
  disable,
}
use freedom_box.Firewall.Served.{IsServed, enable_disable-IsServed}

record Zones : Type 0 where
  inside : List String
  outside : List String

abbrev services : Zone → Zones → List String
services internal r = r.inside
services external r = r.outside

abbrev change : Zone → (List String → List String) → Zones → Zones
change internal g r = record r { inside = g r.inside }
change external g r = record r { outside = g r.outside }

abbrev without : String → List String → List String
without q = keep_if (λ x. not (x == q))

abbrev in_memory : Firewalld Zones
in_memory = record {
  get_enabled_services = services;
  add_service = λ q z. change z (λ l. q ∷ l);
  remove_service = λ q z. change z (without q);
}

contains-without :
    (q p : String) (l : List String) → contains p (without q l) ≡ (not (q == p) && contains p l)
contains-without q p [] = ground arith
contains-without q p (x ∷ l) =
    ground (arith, contains-without q p l, eq_iff x q, eq_iff x p, eq_iff q p)

in_memory-added :
    (q p : String) (y z : Zone) (r : Zones)
    → contains p (services z (change y (λ l. q ∷ l) r))
      ≡ (same_zone y z && q == p || contains p (services z r))
in_memory-added q p internal internal r = refl
in_memory-added q p internal external r = refl
in_memory-added q p external internal r = refl
in_memory-added q p external external r = refl

in_memory-removed :
    (q p : String) (y z : Zone) (r : Zones)
    → contains p (services z (change y (without q) r))
      ≡ (not (same_zone y z && q == p) && contains p (services z r))
in_memory-removed q p internal internal r = contains-without q p r.inside
in_memory-removed q p internal external r = refl
in_memory-removed q p external internal r = refl
in_memory-removed q p external external r = contains-without q p r.outside

in_memory-IsFirewalld : IsFirewalld in_memory
in_memory-IsFirewalld = record { added = in_memory-added; removed = in_memory-removed }

abbrev web : Firewall
web = record { name = "Web"; ports = "http" ∷ []; is_external = true; is_enabled = true }

abbrev proxy : Firewall
proxy = record {
  name = "Proxy";
  ports = "http" ∷ "privoxy" ∷ [];
  is_external = false;
  is_enabled = true;
}

abbrev w : World Zones
w = record {
  components = ("web", web) ∷ ("proxy", proxy) ∷ [];
  firewalld = record { inside = "http" ∷ "privoxy" ∷ []; outside = "http" ∷ [] };
}

web_open :
    (z : Zone) (p : String) → serves z p web ≡ true → contains p (services z w.firewalld) ≡ true
web_open internal p h = ground (arith, h)
web_open external p h = ground (arith, h)

proxy_open :
    (z : Zone) (p : String) → serves z p proxy ≡ true → contains p (services z w.firewalld) ≡ true
proxy_open internal p h = ground (arith, h)
proxy_open external p h = ground (arith, h)

w-IsServed : IsServed in_memory w
w-IsServed z id c p found h = elim (Bool-cases ("web" == id)) [
  | inl same ↦
      let e = some-injective web c (rw same at found) in
      web_open z p (subst (λ x. serves z p x ≡ true) (sym e) h)
  | inr other ↦ elim (Bool-cases ("proxy" == id)) [
    | inl same ↦
        let e = some-injective proxy c (rw (other, same) at found) in
        proxy_open z p (subst (λ x. serves z p x ≡ true) (sym e) h)
    | inr neither ↦ absurd (ground (arith, found, other, neither))
  ]
]

-- The shared port stays open inside, and closes outside.
closed :
    (disable in_memory "web" web w).firewalld
    ≡ record { inside = "http" ∷ "privoxy" ∷ []; outside = [] }
unfolding disable
closed = refl

enable_disable-IsServed_example :
    IsServed in_memory (enable in_memory "web" web w)
    × IsServed in_memory (disable in_memory "web" web w)
enable_disable-IsServed_example =
    enable_disable-IsServed in_memory in_memory-IsFirewalld "web" web w w-IsServed
