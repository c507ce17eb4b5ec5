-- ===== src/Firewall/Served.antt =====
-- The ports of enabled components stay open, whichever components are enabled and disabled.
use freedom_box.Base.{
  String, ◌≡◌, sym, subst, ◌∙◌, true, false, Bool-cases, inl, inr, ◌&&◌, ◌||◌, not, some,
  some-injective, [], ◌∷◌, ◌==◌, arith, eq_iff, contains,
}
use freedom_box.Dict.{Dict, lookup, insert}
use freedom_box.Dict.Laws.{lookup-insert}
use freedom_box.Firewall.Defs.{
  Zone, internal, external, Firewalld, IsFirewalld, Firewall, World, serves, others_serve, enable,
  disable,
}
use freedom_box.Firewall.Ports.{wants, enable-opens, disable-closes}

module _ {R : Type 0} where
  -- Each port of an enabled component is open in the internal zone, and of an external one also in the
  -- external zone.
  abbrev pub IsServed : Firewalld R → World R → Type 0
  IsServed f w =
      (z : Zone) (id : String) (c : Firewall) (p : String)
      → lookup id w.components ≡ some c
      → serves z p c ≡ true
      → contains p (f.get_enabled_services z w.firewalld) ≡ true

serves-open :
    (z : Zone) (p : String) (c : Firewall)
    → serves z p c ≡ true
    → (wants z c.is_external && contains p c.ports) ≡ true
serves-open internal p c h = ground arith
serves-open external p c h = ground arith

serves-disabled :
    (z : Zone) (p : String) (c : Firewall) → serves z p (record c { is_enabled = false }) ≡ false
serves-disabled internal p c = ground arith
serves-disabled external p c = ground arith

others_serve-lookup :
    (z : Zone) (self p x : String) (c : Firewall) (cs : Dict Firewall)
    → lookup x cs ≡ some c
    → (self == x) ≡ false
    → serves z p c ≡ true
    → others_serve z self p cs ≡ true
unfolding others_serve
others_serve-lookup z self p x c [] found other h = absurd (ground arith)
others_serve-lookup z self p x c ((y, d) ∷ cs) found other h = elim (Bool-cases (y == x)) [
  | inl same ↦
      let e = (eq_iff y x).0 same in
      let k = some-injective d c (rw same at found) in
      subst (λ v. ((not (self == v) && serves z p d) || others_serve z self p cs) ≡ true) (sym e)
        (subst (λ v. ((not (self == x) && serves z p v) || others_serve z self p cs) ≡ true) (sym k)
          (ground arith))
  | inr apart ↦
      let rest = others_serve-lookup z self p x c cs (rw apart at found) other h in ground arith
]

module _ {R : Type 0} (f : Firewalld R) (laws : IsFirewalld f) (id : String) (c : Firewall)
    (w : World R) (served : IsServed f w) where
  IsServed-enable : IsServed f (enable f id c w)
  unfolding enable
  IsServed-enable z x d p found h =
      let opens = enable-opens f laws id c w z p in
      let looked = lookup-insert id x (record c { is_enabled = true }) w.components in
      elim (Bool-cases (id == x)) [
        | inl same ↦
            let e =
              some-injective (record c { is_enabled = true }) d (sym (rw same at looked) ∙ found) in
            let open_now =
              serves-open z p (record c { is_enabled = true })
                (subst (λ v. serves z p v ≡ true) (sym e) h) in
            ground arith
        | inr other ↦
            let before = served z x d p (sym (rw other at looked) ∙ found) h in ground arith
      ]

  IsServed-disable : IsServed f (disable f id c w)
  unfolding disable
  IsServed-disable z x d p found h =
      let cs = insert id (record c { is_enabled = false }) w.components in
      let closes = disable-closes f laws id c w z p in
      let looked = lookup-insert id x (record c { is_enabled = false }) w.components in
      elim (Bool-cases (id == x)) [
        | inl same ↦
            let e =
              some-injective (record c { is_enabled = false }) d
                (sym (rw same at looked) ∙ found) in
            let closed = serves-disabled z p c in
            let open_now = subst (λ v. serves z p v ≡ true) (sym e) h in absurd (ground arith)
        | inr other ↦
            let before = served z x d p (sym (rw other at looked) ∙ found) h in
            let others = others_serve-lookup z id p x d cs found other h in ground arith
      ]

-- When firewalld keeps its laws: if the ports of all enabled components are open, they are so after a
-- component was enabled, and after one was disabled.
pub enable_disable-IsServed :
    {R : Type 0} (f : Firewalld R) (laws : IsFirewalld f) (id : String) (c : Firewall) (w : World R)
    → IsServed f w
    → IsServed f (enable f id c w) × IsServed f (disable f id c w)
enable_disable-IsServed f laws id c w served =
    (IsServed-enable f laws id c w served, IsServed-disable f laws id c w served)
