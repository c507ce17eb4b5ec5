-- ===== src/LetsEncrypt/Hooks.antt =====
-- The hooks at certificate events: which domains they act on.
use freedom_box.Base.{
  String, ◌≡◌, refl, ap, ◌∙◌, Bool, true, false, Bool-cases, inl, inr, ◌&&◌, some, List, [], ◌∷◌,
  ◌==◌, arith, eq_iff, eq_refl, contains, keep_if,
}
use freedom_box.LetsEncrypt.Defs.{
  Domains, unset, all, listed, LetsEncrypt, Files, Privileged, files_of, snakeoil, unique,
  interested_domains, copy_and_restart, on_certificate_obtained, on_certificate_renewed,
  on_certificate_revoked, on_certificate_deleted,
}

abbrev pub is_interested : Domains → String → Bool
is_interested unset d = false
is_interested all d = true
is_interested (listed l) d = contains d l

contains-unique : (d : String) (l : List String) → contains d (unique l) ≡ contains d l
contains-unique d [] = refl
contains-unique d (x ∷ xs) = elim (Bool-cases (x == d)) [
  | inl same ↦
      let e = ap (λ z. contains z (unique xs)) ((eq_iff x d).0 same) in
      ground (arith, contains-unique d xs, e, same)
  | inr other ↦ ground (arith, contains-unique d xs)
]

contains-keep_if :
    (d : String) (l m : List String)
    → contains d (keep_if (λ x. contains x l) m) ≡ (contains d m && contains d l)
contains-keep_if d l [] = refl
contains-keep_if d l (x ∷ m) = elim (Bool-cases (x == d)) [
  | inl same ↦
      let e = ap (λ z. contains z l) ((eq_iff x d).0 same) in
      ground (arith, contains-keep_if d l m, e, same)
  | inr other ↦ ground (arith, contains-keep_if d l m)
]

-- _get_interested_domains gives exactly the domains of the event that the component is for.
pub contains-interested_domains :
    (ds : Domains) (domains : List String) (d : String)
    → contains d (interested_domains ds domains) ≡ (contains d domains && is_interested ds d)
unfolding interested_domains
contains-interested_domains unset domains d = ground arith
contains-interested_domains all domains d = ground (arith, contains-unique d domains)
contains-interested_domains (listed l) domains d =
    ground (arith, contains-keep_if d l (unique domains), contains-unique d domains)

empty_of_none : (l : List String) → ((d : String) → contains d l ≡ false) → l ≡ []
empty_of_none [] h = refl
empty_of_none (x ∷ l) h = absurd (ground (arith, h x, eq_refl x))

-- An event about none of the component's domains calls nothing, whichever event it is.
pub hooks_ignore :
    {R : Type 0} (p : Privileged R) (c : LetsEncrypt) (domains : List String) (lineage : String)
    (r : R)
    → ((d : String) → (contains d domains && is_interested c.domains d) ≡ false)
    → (on_certificate_obtained p c domains lineage r ≡ (some tt, r))
      × (on_certificate_renewed p c domains lineage r ≡ (some tt, r))
      × (on_certificate_revoked p c domains lineage r ≡ (some tt, r))
      × (on_certificate_deleted p c domains lineage r ≡ (some tt, r))
unfolding on_certificate_obtained on_certificate_renewed on_certificate_revoked
    on_certificate_deleted
hooks_ignore p c domains lineage r h =
    let e =
      empty_of_none (interested_domains c.domains domains)
        (λ d. contains-interested_domains c.domains domains d ∙ h d) in
    let same = λ (source : Files). ap (λ l. copy_and_restart p c l source r) e in
    (same (files_of lineage), same (files_of lineage), same snakeoil, same snakeoil)
