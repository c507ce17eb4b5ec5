-- ===== src/LetsEncrypt/Copied.antt =====
-- What the hooks at certificate events leave in the files of a component, where its key and its
-- certificate have different paths.
use freedom_box.Base.{
  String, ◌≡◌, refl, sym, ap, subst, ◌∙◌, Bool, true, false, Bool-cases, inl, inr, ◌&&◌, ◌||◌,
  Option, Option-cases, ◌⊎◌, ◌≢◌, some, List, [], ◌∷◌, ◌==◌, arith, eq_iff, if◌then◌else◌, contains,
}
use freedom_box.Effect.{M, pure, continue-some, for_each, ◌>>◌}
use freedom_box.LetsEncrypt.Defs.{
  LetsEncrypt, Files, Privileged, files_of, restart_daemon, interested_domains, target, copy_one,
  copy_certificates, restart_daemons, copy_and_restart, on_certificate_obtained,
  on_certificate_renewed,
}
use freedom_box.LetsEncrypt.Hooks.{is_interested, contains-interested_domains}

same_or_not : (x y : String) → (x ≡ y) ⊎ (x ≢ y)
same_or_not x y = elim (Bool-cases (x == y)) [
  | inl e ↦ inl ((eq_iff x y).0 e)
  | inr e ↦ inr (λ q. absurd (ground (arith, (eq_iff x y).1 q)))
]

module _ {R : Type 0} where
  -- What is in a file of a path, `none` if there is none, where no file has two paths. A copy that
  -- returned, to two different files of which the first is not the source of the second, gives both
  -- what their sources had, and changes no other; a path without '{domain}' is its own format; and
  -- restarting a daemon changes no file.
  pub record IsPrivileged (p : Privileged R) (content : String → R → Option String) : Type 0 where
    pub copied :
        (app : String) (source to : Files) (user group : String) (r : R)
        → (p.copy_certificate app source to user group r).0 ≡ some tt
        → to.private_key ≢ to.certificate
        → source.certificate ≢ to.private_key
        → let end = (p.copy_certificate app source to user group r).1 in
          (content to.private_key end ≡ content source.private_key r)
          × (content to.certificate end ≡ content source.certificate r)
          × ((x : String) → x ≢ to.private_key → x ≢ to.certificate → content x end ≡ content x r)
    pub formatted : (path domain : String) → p.has_domain path ≡ false → p.format path domain ≡ path
    pub restarted : (daemon x : String) (r : R) → content x (p.try_restart daemon r).1 ≡ content x r
    pub reloaded :
        (daemon x : String) (r : R) → content x (p.try_reload_or_restart daemon r).1 ≡ content x r

  -- No path of the component for a key is one for a certificate, and none of either is a source.
  pub record AreApart (p : Privileged R) (c : LetsEncrypt) (source : Files) : Type 0 where
    pub own : (d e : String) → (target p c d).private_key ≢ (target p c e).certificate
    pub key_of_key : (d : String) → source.private_key ≢ (target p c d).private_key
    pub key_of_certificate : (d : String) → source.private_key ≢ (target p c d).certificate
    pub certificate_of_key : (d : String) → source.certificate ≢ (target p c d).private_key
    pub certificate_of_certificate : (d : String) → source.certificate ≢ (target p c d).certificate

module _ {R : Type 0} (p : Privileged R) (c : LetsEncrypt) (content : String → R → Option String)
    (laws : IsPrivileged p content) (source : Files) (apart : AreApart p c source) (start : R) where
  -- The sources are as they were at the start, and so are the files of a domain as these.
  abbrev HasSources : R → Type 0
  HasSources r =
      (content source.private_key r ≡ content source.private_key start)
      × (content source.certificate r ≡ content source.certificate start)

  abbrev IsCopied : String → R → Type 0
  IsCopied d r =
      (content (target p c d).private_key r ≡ content source.private_key start)
      × (content (target p c d).certificate r ≡ content source.certificate start)

  abbrev copy_for : String → M R (Unit {0})
  copy_for d = copy_one p c source (target p c d)

  copy_for_lem :
      (d : String) (r : R)
      → (copy_for d r).0 ≡ some tt
      → HasSources r
      → HasSources (copy_for d r).1 × IsCopied d (copy_for d r).1
  unfolding copy_one
  copy_for_lem d r done h =
      let (key, certificate, other) =
        laws.copied c.managing_app source (target p c d) c.user_owner c.group_owner r done
          (apart.own d d) (apart.certificate_of_key d) in
      (
        (
          other source.private_key (apart.key_of_key d) (apart.key_of_certificate d) ∙ h.0,
          other source.certificate (apart.certificate_of_key d) (apart.certificate_of_certificate d)
              ∙ h.1,
        ),
        (key ∙ h.0, certificate ∙ h.1),
      )

  -- What was copied for one domain stays so when it is copied for another.
  copy_for-kept :
      (e d : String) (r : R)
      → (copy_for d r).0 ≡ some tt
      → HasSources r
      → IsCopied e r
      → IsCopied e (copy_for d r).1
  unfolding copy_one
  copy_for-kept e d r done h copied =
      let (key, certificate, other) =
        laws.copied c.managing_app source (target p c d) c.user_owner c.group_owner r done
          (apart.own d d) (apart.certificate_of_key d) in
      let end = (copy_for d r).1 in
      (
        elim (same_or_not (target p c e).private_key (target p c d).private_key) [
          | inl same ↦ ap (λ x. content x end) same ∙ key ∙ h.0
          | inr differ ↦ other (target p c e).private_key differ (apart.own e d) ∙ copied.0
        ],
        elim (same_or_not (target p c e).certificate (target p c d).certificate) [
          | inl same ↦ ap (λ x. content x end) same ∙ certificate ∙ h.1
          | inr differ ↦
              other (target p c e).certificate (λ q. apart.own d e (sym q)) differ ∙ copied.1
        ],
      )

  for_each-kept :
      (e : String) (ds : List String) (r : R)
      → (for_each copy_for ds r).0 ≡ some tt
      → HasSources r
      → IsCopied e r
      → IsCopied e (for_each copy_for ds r).1
  for_each-kept e [] r done h copied = copied
  for_each-kept e (d ∷ ds) r done h copied =
      let (_, one, more) =
        continue-some (copy_for d r).0 (λ _. for_each copy_for ds) (copy_for d r).1 done in
      rw one (
        for_each-kept e ds (copy_for d r).1 more (copy_for_lem d r one h).0
          (copy_for-kept e d r one h copied))

  for_each-IsCopied :
      (e : String) (ds : List String) (r : R)
      → (for_each copy_for ds r).0 ≡ some tt
      → contains e ds ≡ true
      → HasSources r
      → IsCopied e (for_each copy_for ds r).1
  for_each-IsCopied e [] r done there h = absurd (ground arith)
  for_each-IsCopied e (d ∷ ds) r done there h =
      let (_, one, more) =
        continue-some (copy_for d r).0 (λ _. for_each copy_for ds) (copy_for d r).1 done in
      let (sources, copied) = copy_for_lem d r one h in
      elim (Bool-cases (d == e)) [
        | inl same ↦ rw one (
            for_each-kept e ds (copy_for d r).1 more sources
              (subst (λ x. IsCopied x (copy_for d r).1) ((eq_iff d e).0 same) copied))
        | inr other ↦
            rw one (for_each-IsCopied e ds (copy_for d r).1 more (rw other at there) sources)
      ]

  plain_target :
      (e : String)
      → (p.has_domain c.private_key_path || p.has_domain c.certificate_path) ≡ false
      → record { private_key = c.private_key_path; certificate = c.certificate_path } ≡ target p c e
  plain_target e plain =
      let k = laws.formatted c.private_key_path e (ground arith) in
      let m = laws.formatted c.certificate_path e (ground arith) in rw (k, m) refl

  copy_certificates-IsCopied :
      (e : String) (ds : List String)
      → (copy_certificates p c ds source start).0 ≡ some tt
      → contains e ds ≡ true
      → IsCopied e (copy_certificates p c ds source start).1
  unfolding copy_certificates
  copy_certificates-IsCopied e ds done there =
      elim (Bool-cases (p.has_domain c.private_key_path || p.has_domain c.certificate_path)) [
        | inl some_domain ↦
            rw some_domain
              (for_each-IsCopied e ds start (rw some_domain at done) there (refl, refl))
        | inr plain ↦
            rw (plain, plain_target e plain)
              (copy_for_lem e start (rw (plain, plain_target e plain) at done) (refl, refl)).1
      ]

  restart_daemon-kept :
      (reload : Bool) (daemon x : String) (r : R)
      → content x (restart_daemon p reload daemon r).1 ≡ content x r
  restart_daemon-kept true daemon x r = laws.reloaded daemon x r
  restart_daemon-kept false daemon x r = laws.restarted daemon x r

  for_each-restarted :
      (x : String) (daemons : List String) (r : R)
      → content x (for_each (restart_daemon p c.reload_daemons) daemons r).1 ≡ content x r
  for_each-restarted x [] r = refl
  for_each-restarted x (d ∷ ds) r =
      let one = restart_daemon-kept c.reload_daemons d x r in
      let call = restart_daemon p c.reload_daemons d r in
      elim (Option-cases call.0) [
        | inl raised ↦ rw raised one
        | inr (_, returned) ↦ rw returned (for_each-restarted x ds call.1 ∙ one)
      ]

  restart_daemons-kept : (x : String) (r : R) → content x (restart_daemons p c r).1 ≡ content x r
  unfolding restart_daemons
  restart_daemons-kept x r = elim (Option-cases c.daemons) [
    | inl nothing ↦ rw nothing refl
    | inr (daemons, some_daemons) ↦ rw some_daemons (for_each-restarted x daemons r)
  ]

  restart_if :
      (b : Bool) (m : M R (Unit {0}))
      → b ≡ true
      → ((if b then m else pure tt) >> restart_daemons p c) ≡ (m >> restart_daemons p c)
  restart_if true m e = refl
  restart_if false m e = absurd (ground arith)

  restart-IsCopied :
      (e : String) (m : M R (Unit {0}))
      → ((m start).0 ≡ some tt → IsCopied e (m start).1)
      → ((m >> restart_daemons p c) start).0 ≡ some tt
      → IsCopied e ((m >> restart_daemons p c) start).1
  restart-IsCopied e m h done =
      let (_, one, more) = continue-some (m start).0 (λ _. restart_daemons p c) (m start).1 done in
      let copied = h one in
      rw one (
        restart_daemons-kept (target p c e).private_key (m start).1 ∙ copied.0,
        restart_daemons-kept (target p c e).certificate (m start).1 ∙ copied.1,
      )

  pub copy_and_restart-IsCopied :
      (e : String) (ds : List String)
      → c.should_copy_certificates ≡ true
      → (copy_and_restart p c ds source start).0 ≡ some tt
      → contains e ds ≡ true
      → IsCopied e (copy_and_restart p c ds source start).1
  copy_and_restart-IsCopied e [] copies done there = absurd (ground arith)
  copy_and_restart-IsCopied e (d ∷ ds) copies done there =
      let same =
        ap (λ m. m start)
          (restart_if c.should_copy_certificates (copy_certificates p c (d ∷ ds) source) copies) in
      subst (λ x. IsCopied e x.1) (sym same)
        (restart-IsCopied e (copy_certificates p c (d ∷ ds) source)
          (λ one. copy_certificates-IsCopied e (d ∷ ds) one there)
          (ap (λ x. x.0) (sym same) ∙ done))

-- When the privileged actions keep their laws, no path of the component for a key is one for a
-- certificate, no file of the lineage is one of the component's, and the component copies certificates:
-- after the hook for an obtained or a renewed certificate, which do the same, has returned, the key and
-- the certificate of each domain of the event that the component is for are what those of the lineage
-- were before.
pub on_certificate_obtained-IsCopied :
    {R : Type 0} (p : Privileged R) (c : LetsEncrypt) (content : String → R → Option String)
    (laws : IsPrivileged p content) (lineage domain : String) (domains : List String) (r : R)
    → AreApart p c (files_of lineage)
    → c.should_copy_certificates ≡ true
    → (contains domain domains && is_interested c.domains domain) ≡ true
    → (on_certificate_obtained p c domains lineage r).0 ≡ some tt
    → let end = (on_certificate_obtained p c domains lineage r).1 in
      (on_certificate_renewed p c domains lineage r ≡ on_certificate_obtained p c domains lineage r)
      × (content (target p c domain).private_key end ≡ content (files_of lineage).private_key r)
      × (content (target p c domain).certificate end ≡ content (files_of lineage).certificate r)
unfolding on_certificate_obtained on_certificate_renewed
on_certificate_obtained-IsCopied p c content laws lineage domain domains r apart copies wanted
      done =
    let there = contains-interested_domains c.domains domains domain ∙ wanted in
    let copied =
      copy_and_restart-IsCopied p c content laws (files_of lineage) apart r domain
        (interested_domains c.domains domains) copies done there in
    (refl, copied.0, copied.1)
