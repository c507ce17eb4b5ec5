-- ===== src/Firewall/Ports.antt =====
-- The open ports after a component was enabled or disabled.
use freedom_box.Base.{
  String, ◌≡◌, refl, ap, Bool, true, false, Bool-cases, inl, inr, ◌&&◌, ◌||◌, not, List, [], ◌∷◌,
  ◌==◌, arith, eq_iff, contains,
}
use freedom_box.Dict.{Dict, insert}
use freedom_box.Firewall.Defs.{
  Zone, internal, external, same_zone, Firewalld, IsFirewalld, Firewall, World, open_port,
  open_ports, enable, add_if, remove_if, others_serve, close_port, close_ports, disable,
}

abbrev pub wants : Zone → Bool → Bool
wants internal is_external = true
wants external is_external = is_external

module _ {R : Type 0} (f : Firewalld R) (laws : IsFirewalld f) where
  abbrev pub is_open : Zone → String → R → Bool
  is_open z p r = contains p (f.get_enabled_services z r)

  -- What was read is still open.
  abbrev Reads : Zone → List String → R → Type 0
  Reads z l r = (p : String) → contains p l ≡ true → is_open z p r ≡ true

  add_if-open :
      (b : Bool) (q p : String) (y z : Zone) (r : R)
      → is_open z p (add_if f b q y r) ≡ (b && (same_zone y z && q == p) || is_open z p r)
  add_if-open true q p y z r = laws.added q p y z r
  add_if-open false q p y z r = refl

  remove_if-open :
      (b : Bool) (q p : String) (y z : Zone) (r : R)
      → is_open z p (remove_if f b q y r) ≡ (not (b && (same_zone y z && q == p)) && is_open z p r)
  remove_if-open true q p y z r = laws.removed q p y z r
  remove_if-open false q p y z r = refl

  module _ (l m : List String) (is_external : Bool) where
    open_port-open :
        (z : Zone) (q p : String) (r : R)
        → Reads internal l r
        → Reads external m r
        → is_open z p (open_port f l m is_external q r)
          ≡ (is_open z p r || wants z is_external && q == p)
    unfolding open_port
    open_port-open internal q p r h k =
        let r₁ = add_if f (not (contains q l)) q internal r in
        ground (
          arith,
          add_if-open (is_external && not (contains q m)) q p external internal r₁,
          add_if-open (not (contains q l)) q p internal internal r,
          h q,
          eq_iff q p,
          h p,
        )
    open_port-open external q p r h k =
        let r₁ = add_if f (not (contains q l)) q internal r in
        ground (
          arith,
          add_if-open (is_external && not (contains q m)) q p external external r₁,
          add_if-open (not (contains q l)) q p internal external r,
          k q,
          eq_iff q p,
          k p,
        )

    open_ports-open :
        (z : Zone) (qs : List String) (p : String) (r : R)
        → Reads internal l r
        → Reads external m r
        → is_open z p (open_ports f l m is_external qs r)
          ≡ (is_open z p r || wants z is_external && contains p qs)
    unfolding open_ports
    open_ports-open z [] p r h k = ground arith
    open_ports-open z (q ∷ qs) p r h k =
        let r₁ = open_port f l m is_external q r in
        ground (
          arith,
          open_ports-open z qs p r₁
              (λ x e. ground (arith, open_port-open internal q x r h k, h x e))
              (λ x e. ground (arith, open_port-open external q x r h k, k x e)),
          open_port-open z q p r h k,
        )

  -- What is open was read.
  abbrev WasRead : Zone → List String → R → Type 0
  WasRead z l r = (p : String) → is_open z p r ≡ true → contains p l ≡ true

  module _ (l m : List String) (cs : Dict Firewall) (id : String) where
    close_port-open :
        (z : Zone) (q p : String) (r : R)
        → WasRead internal l r
        → WasRead external m r
        → is_open z p (close_port f l m cs id q r)
          ≡ (is_open z p r && not (q == p && not (others_serve z id p cs)))
    unfolding close_port
    close_port-open internal q p r h k =
        let r₁ = remove_if f (contains q l && not (others_serve internal id q cs)) q internal r in
        let b = contains q m && not (others_serve external id q cs) in
        elim (Bool-cases (q == p)) [
          | inl same ↦
              let e = (eq_iff q p).0 same in
              ground (
                arith,
                remove_if-open b q p external internal r₁,
                remove_if-open (contains q l && not (others_serve internal id q cs)) q p internal
                    internal r,
                ap (λ x. contains x l) e,
                ap (λ x. others_serve internal id x cs) e,
                h p,
              )
          | inr other ↦ ground (
            arith,
            remove_if-open b q p external internal r₁,
            remove_if-open (contains q l && not (others_serve internal id q cs)) q p internal
                internal r,
          )
        ]
    close_port-open external q p r h k =
        let r₁ = remove_if f (contains q l && not (others_serve internal id q cs)) q internal r in
        let b = contains q m && not (others_serve external id q cs) in
        elim (Bool-cases (q == p)) [
          | inl same ↦
              let e = (eq_iff q p).0 same in
              ground (
                arith,
                remove_if-open b q p external external r₁,
                remove_if-open (contains q l && not (others_serve internal id q cs)) q p internal
                    external r,
                ap (λ x. contains x m) e,
                ap (λ x. others_serve external id x cs) e,
                k p,
              )
          | inr other ↦ ground (
            arith,
            remove_if-open b q p external external r₁,
            remove_if-open (contains q l && not (others_serve internal id q cs)) q p internal
                external r,
          )
        ]

    close_ports-open :
        (z : Zone) (qs : List String) (p : String) (r : R)
        → WasRead internal l r
        → WasRead external m r
        → is_open z p (close_ports f l m cs id qs r)
          ≡ (is_open z p r && not (contains p qs && not (others_serve z id p cs)))
    unfolding close_ports
    close_ports-open z [] p r h k = ground arith
    close_ports-open z (q ∷ qs) p r h k =
        let r₁ = close_port f l m cs id q r in
        ground (
          arith,
          close_ports-open z qs p r₁
              (λ x e. h x (ground (arith, close_port-open internal q x r h k)))
              (λ x e. k x (ground (arith, close_port-open external q x r h k))),
          close_port-open z q p r h k,
        )

-- When firewalld keeps its laws: enabling a component opens its ports in the internal zone, and in
-- the external zone if it is external, and changes no other port.
pub enable-opens :
    {R : Type 0} (f : Firewalld R) (laws : IsFirewalld f) (id : String) (c : Firewall) (w : World R)
    (z : Zone) (p : String)
    → contains p (f.get_enabled_services z (enable f id c w).firewalld) ≡ (
        contains p (f.get_enabled_services z w.firewalld)
        || wants z c.is_external && contains p c.ports)
unfolding enable
enable-opens f laws id c w z p =
    open_ports-open f laws (f.get_enabled_services internal w.firewalld)
      (f.get_enabled_services external w.firewalld) c.is_external z c.ports p w.firewalld (λ x e. e)
      (λ x e. e)

-- When firewalld keeps its laws: disabling a component closes exactly those of its ports, in each
-- zone, that no other enabled component has, where only external ones count for the external zone.
pub disable-closes :
    {R : Type 0} (f : Firewalld R) (laws : IsFirewalld f) (id : String) (c : Firewall) (w : World R)
    (z : Zone) (p : String)
    → contains p (f.get_enabled_services z (disable f id c w).firewalld) ≡ (
        contains p (f.get_enabled_services z w.firewalld)
        && not (contains p c.ports && not (others_serve z id p (disable f id c w).components)))
unfolding disable
disable-closes f laws id c w z p =
    close_ports-open f laws (f.get_enabled_services internal w.firewalld)
      (f.get_enabled_services external w.firewalld)
      (insert id (record c { is_enabled = false }) w.components) id z c.ports p w.firewalld
      (λ x e. e) (λ x e. e)
