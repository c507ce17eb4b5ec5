-- ===== src/LetsEncrypt/Defs.antt =====
-- class LetsEncrypt of plinth/modules/letsencrypt/components.py. What it calls, privileged actions and
-- the text functions `in` and `format` on a path, stands behind an interface.
use freedom_box.Base.{
  String, Bool, true, false, ◌&&◌, ◌||◌, Option, none, some, List, [], ◌∷◌, ◌==◌, if◌then◌else◌,
  contains, keep_if,
}
use Prim.Native.String.{◌++◌ as str_append}
use freedom_box.Dict.{Dict, lookup, insert}
use freedom_box.Effect.{M, pure, or_raise, for_each, ◌>>=◌, ◌>>◌}

-- The value of the property `domains`: None, '*', or a list.
pub data Domains : Type 0 where
  unset all : Domains
  listed : List String → Domains

pub record LetsEncrypt : Type 0 where
  pub domains : Domains
  pub daemons : Option (List String)
  pub reload_daemons : Bool
  pub should_copy_certificates : Bool
  pub private_key_path : String
  pub certificate_path : String
  pub user_owner : String
  pub group_owner : String
  pub managing_app : String

abbrev is_empty : String → Bool
is_empty s = s == ""

-- The check of LetsEncrypt.__init__; `none` is ValueError. None and '' count the same.
unfoldable pub init : LetsEncrypt → Option LetsEncrypt
init c =
    if c.should_copy_certificates
      && (is_empty c.private_key_path
          || (is_empty c.certificate_path
              || (is_empty c.user_owner || (is_empty c.group_owner || is_empty c.managing_app))))
    then none
    else some c

-- A domain's status with a certificate, in the status of the privileged actions
pub record DomainStatus : Type 0 where
  pub lineage : String
  pub validity : String

-- The private key and the certificate of a source or of a target.
pub record Files : Type 0 where
  pub private_key : String
  pub certificate : String

pub record Privileged (R : Type 0) : Type 0 where
  -- '{domain}' in path, and path.format(domain=domain)
  pub has_domain : String → Bool
  pub format : String → String → String
  pub copy_certificate : String → Files → Files → String → String → M R (Unit {0})
  pub compare_certificate : String → Files → Files → M R Bool
  pub try_restart : String → M R (Unit {0})
  pub try_reload_or_restart : String → M R (Unit {0})
  -- letsencrypt.get_status()['domains']
  pub get_status : M R (Dict (Option DomainStatus))
  -- DomainName.list_names()
  pub list_names : R → List String

-- The source files of a lineage, which is a path without a slash at its end.
abbrev pub files_of : String → Files
files_of lineage = record {
  private_key = str_append lineage "/privkey.pem";
  certificate = str_append lineage "/fullchain.pem";
}

abbrev pub snakeoil : Files
snakeoil = record {
  private_key = "/etc/ssl/private/ssl-cert-snakeoil.key";
  certificate = "/etc/ssl/certs/ssl-cert-snakeoil.pem";
}

-- set(xs), in one order
abbrev pub unique : List String → List String
unique [] = []
unique (x ∷ xs) = let rest = unique xs in if contains x rest then rest else x ∷ rest

-- LetsEncrypt._get_interested_domains
unfoldable pub interested_domains : Domains → List String → List String
interested_domains unset domains = []
interested_domains all domains = unique domains
interested_domains (listed l) domains = keep_if (λ d. contains d l) (unique domains)

-- The status of the domain, if it is in the set that _get_letsencrypt_domains returns.
abbrev pub certificate_of : String → Dict (Option DomainStatus) → Option DomainStatus
certificate_of d status = elim (lookup d status) [ some s ↦ s | none ↦ none ]

-- for domain in app_domains: None raises, and the text '*' has one character.
abbrev pub iterated : Domains → Option (List String)
iterated unset = none
iterated all = some ("*" ∷ [])
iterated (listed l) = some l

abbrev pub is_falsy : Domains → Bool
is_falsy unset = true
is_falsy all = false
is_falsy (listed []) = true
is_falsy (listed (d ∷ l)) = false

abbrev pub names_of_all : List String → Domains → Domains
names_of_all names all = listed names
names_of_all names unset = unset
names_of_all names (listed l) = listed l

module _ {R : Type 0} (p : Privileged R) where
  open p use {
    has_domain, format, copy_certificate, compare_certificate, try_restart, try_reload_or_restart,
    get_status, list_names,
  }

  -- The paths of the component for a domain.
  abbrev pub target : LetsEncrypt → String → Files
  target c domain = record {
    private_key = format c.private_key_path domain;
    certificate = format c.certificate_path domain;
  }

  -- LetsEncrypt._copy_certificate
  unfoldable pub copy_one : LetsEncrypt → Files → Files → M R (Unit {0})
  copy_one c source to = copy_certificate c.managing_app source to c.user_owner c.group_owner

  -- LetsEncrypt._copy_certificates
  unfoldable pub copy_certificates : LetsEncrypt → List String → Files → M R (Unit {0})
  unfolding copy_one
  copy_certificates c domains source =
      if has_domain c.private_key_path || has_domain c.certificate_path
      then for_each (λ domain. copy_one c source (target c domain)) domains
      else copy_one c source
          (record { private_key = c.private_key_path; certificate = c.certificate_path })

  -- LetsEncrypt._compare_certificate
  unfoldable pub compare : LetsEncrypt → String → String → M R Bool
  compare c domain lineage = compare_certificate c.managing_app (files_of lineage) (target c domain)

  -- The loop over the daemons; None raises.
  abbrev pub restart_daemon : Bool → String → M R (Unit {0})
  restart_daemon reload daemon = if reload then try_reload_or_restart daemon else try_restart daemon

  unfoldable pub restart_daemons : LetsEncrypt → M R (Unit {0})
  restart_daemons c = elim c.daemons [
    | none ↦ λ r. (none, r)
    | some daemons ↦ for_each (restart_daemon c.reload_daemons) daemons
  ]

  abbrev pub copy_and_restart : LetsEncrypt → List String → Files → M R (Unit {0})
  copy_and_restart c [] source = pure tt
  copy_and_restart c (d ∷ ds) source =
      (if c.should_copy_certificates then copy_certificates c (d ∷ ds) source else pure tt)
      >> restart_daemons c

  -- LetsEncrypt.on_certificate_obtained
  unfoldable pub on_certificate_obtained : LetsEncrypt → List String → String → M R (Unit {0})
  on_certificate_obtained c domains lineage =
      copy_and_restart c (interested_domains c.domains domains) (files_of lineage)

  -- LetsEncrypt.on_certificate_revoked
  unfoldable pub on_certificate_revoked : LetsEncrypt → List String → String → M R (Unit {0})
  on_certificate_revoked c domains lineage =
      copy_and_restart c (interested_domains c.domains domains) snakeoil

  -- LetsEncrypt.on_certificate_renewed
  unfoldable pub on_certificate_renewed : LetsEncrypt → List String → String → M R (Unit {0})
  unfolding on_certificate_obtained
  on_certificate_renewed c domains lineage = on_certificate_obtained c domains lineage

  -- LetsEncrypt.on_certificate_deleted
  unfoldable pub on_certificate_deleted : LetsEncrypt → List String → String → M R (Unit {0})
  unfolding on_certificate_revoked
  on_certificate_deleted c domains lineage = on_certificate_revoked c domains lineage

  abbrev setup_domain : LetsEncrypt → String → Option DomainStatus → M R (Unit {0})
  setup_domain c domain none = copy_certificates c (domain ∷ []) snakeoil
  setup_domain c domain (some s) = copy_certificates c (domain ∷ []) (files_of s.lineage)

  -- LetsEncrypt.setup_certificates
  unfoldable pub setup_certificates : LetsEncrypt → Domains → M R (Unit {0})
  setup_certificates c app_domains = do
    names ← or_raise (λ r. some (list_names r))
    status ← get_status
    if c.should_copy_certificates
        then (or_raise (λ r.
              iterated
                (names_of_all names (if is_falsy app_domains then c.domains else app_domains)))
            >>= λ domains.
                for_each (λ domain. setup_domain c domain (certificate_of domain status)) domains)
        else pure tt
    restart_daemons c

  -- The status of one domain in get_status
  abbrev pub domain_status : LetsEncrypt → String → Option DomainStatus → M R String
  domain_status c domain none = pure "self-signed"
  domain_status c domain (some s) =
      if c.should_copy_certificates
      then (compare c domain s.lineage >>= λ same.
          pure (if same then s.validity else "outdated-copy"))
      else pure s.validity

  status_loop :
      LetsEncrypt → Dict (Option DomainStatus) → List String → Dict String → M R (Dict String)
  status_loop c status [] final = pure final
  status_loop c status (d ∷ ds) final = domain_status c d (certificate_of d status) >>= λ s.
      status_loop c status ds (insert d s final)

  -- LetsEncrypt.get_status
  unfoldable pub get_certificate_status : LetsEncrypt → M R (Dict String)
  unfolding status_loop
  get_certificate_status c = do
    status ← get_status
    domains ← or_raise (λ r. iterated c.domains)
    status_loop c status domains []
