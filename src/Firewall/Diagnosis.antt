-- ===== src/Firewall/Diagnosis.antt =====
-- What the checks of a component say right after it was enabled.
use freedom_box.Base.{
  String, ◌≡◌, refl, Bool, true, false, ◌||◌, not, List, [], ◌∷◌, arith, eq_refl, contains, all,
}
use freedom_box.Firewall.Defs.{
  internal, external, Firewalld, IsFirewalld, Firewall, World, check_ports, diagnose, enable,
}
use freedom_box.Firewall.Ports.{enable-opens}

abbrev AllIn : List String → List String → Type 0
AllIn ports l = (p : String) → contains p ports ≡ true → contains p l ≡ true

external_checks :
    (l m ports : List String)
    → AllIn ports l
    → AllIn ports m
    → all (λ x. x.1) (check_ports true l m ports) ≡ true
external_checks l m [] h k = refl
external_checks l m (q ∷ qs) h k = ground (
  arith,
  external_checks l m qs (λ p e. h p (ground arith)) (λ p e. k p (ground arith)),
  eq_refl q,
  h q,
  k q,
)

internal_checks :
    (l m ports : List String)
    → AllIn ports l
    → all (λ x. x.1) (check_ports false l m ports) ≡ all (λ p. not (contains p m)) ports
internal_checks l m [] h = refl
internal_checks l m (q ∷ qs) h =
    ground (arith, internal_checks l m qs (λ p e. h p (ground arith)), eq_refl q, h q)

all_checks :
    (is_external : Bool) (l m ports : List String)
    → AllIn ports l
    → (is_external ≡ true → AllIn ports m)
    → all (λ x. x.1) (check_ports is_external l m ports)
      ≡ (is_external || all (λ p. not (contains p m)) ports)
all_checks true l m ports h k = external_checks l m ports h (k refl)
all_checks false l m ports h k = internal_checks l m ports h

-- When firewalld keeps its laws: right after a component was enabled, its checks all pass, if it is
-- external; if not, exactly when none of its ports is open in the external zone.
pub diagnose-enable :
    {R : Type 0} (f : Firewalld R) (laws : IsFirewalld f) (id : String) (c : Firewall) (w : World R)
    → all (λ check. check.1) (diagnose f c (enable f id c w).firewalld) ≡ (
        c.is_external
        || all
            (λ p. not (contains p (f.get_enabled_services external (enable f id c w).firewalld)))
            c.ports)
unfolding diagnose
diagnose-enable f laws id c w =
    let r = (enable f id c w).firewalld in
    let l = f.get_enabled_services internal r in
    let m = f.get_enabled_services external r in
    all_checks c.is_external l m c.ports
      (λ p e. ground (arith, enable-opens f laws id c w internal p, e))
      (λ out p e. ground (arith, enable-opens f laws id c w external p, e, out))
