-- ===== src/LetsEncrypt/Tests.antt =====
-- A component with a copy for each domain, over copies in memory.
use freedom_box.Base.{
  String, ◌≡◌, refl, Bool, true, false, Option, none, some, [], ◌∷◌, ◌==◌, if◌then◌else◌,
}
use Prim.Native.String.{◌++◌ as str_append}
use freedom_box.Dict.{Dict, lookup, insert}
use freedom_box.Dict.Laws.{lookup-insert_self}
use freedom_box.LetsEncrypt.Defs.{
  listed, LetsEncrypt, Privileged, copy_one, restart_daemons, copy_certificates, interested_domains,
  on_certificate_obtained, on_certificate_renewed,
}
use freedom_box.Effect.{pure}
use freedom_box.LetsEncrypt.Events.{renewed, on_certificate_event_sync}
use freedom_box.LetsEncrypt.Isolated.{AllKeep, on_certificate_event_sync_reaches}

abbrev template : String
template = "/var/lib/app/{domain}.key"

abbrev format_path : String → String → String
format_path path domain =
    if path == template then str_append (str_append "/var/lib/app/" domain) ".key" else path

-- The source of each copied private key.
abbrev Copies : Type 0
Copies = Dict String

abbrev is_same : Option String → String → Bool
is_same none source = false
is_same (some x) source = x == source

abbrev in_memory : Privileged Copies
in_memory = record {
  has_domain = λ path. path == template;
  format = format_path;
  copy_certificate =
      λ app source to user group r. (some tt, insert to.private_key source.private_key r);
  compare_certificate =
      λ app source to r. (some (is_same (lookup to.private_key r) source.private_key), r);
  try_restart = λ daemon r. (some tt, r);
  try_reload_or_restart = λ daemon r. (some tt, r);
  get_status = λ r. (some [], r);
  list_names = λ r. [];
}

abbrev chat : LetsEncrypt
chat = record {
  domains = listed ("a.example" ∷ "b.example" ∷ []);
  daemons = some ("chat" ∷ []);
  reload_daemons = false;
  should_copy_certificates = true;
  private_key_path = template;
  certificate_path = "/var/lib/app/all.crt";
  user_owner = "chat";
  group_owner = "chat";
  managing_app = "chat";
}

obtained :
    (on_certificate_obtained in_memory chat ("a.example" ∷ "b.example" ∷ []) "/live/a" []).0
    ≡ some tt
unfolding on_certificate_obtained interested_domains copy_certificates copy_one restart_daemons
obtained = refl

-- A component without daemons, whose hook raises after the copy
abbrev broken : LetsEncrypt
broken = record chat { daemons = none }

abbrev HasKey : Copies → Type 0
HasKey r = lookup "/var/lib/app/a.example.key" r ≡ some "/live/a.example/privkey.pem"

chat_brings :
    (s : Copies)
    → HasKey (on_certificate_renewed in_memory chat ("a.example" ∷ []) "/live/a.example" s).1
unfolding on_certificate_renewed on_certificate_obtained interested_domains copy_certificates
    copy_one restart_daemons
chat_brings s = lookup-insert_self "/var/lib/app/a.example.key" "/live/a.example/privkey.pem" s

on_certificate_event_sync_reaches_example :
    HasKey
      (on_certificate_event_sync in_memory
        (str_append "/live/")
        (λ lineage. pure tt)
        (record { needs_setup = λ s. false; component = broken }
          ∷ record { needs_setup = λ s. false; component = chat }
          ∷ [])
        "renewed"
        ("a.example" ∷ [])
        ""
        []).1
unfolding AllKeep
on_certificate_event_sync_reaches_example =
    on_certificate_event_sync_reaches in_memory (str_append "/live/") (λ lineage. pure tt) HasKey
      "renewed" renewed ("a.example" ∷ []) "" "/live/a.example"
      (record { needs_setup = λ s. false; component = broken } ∷ []) chat [] [] refl refl
      chat_brings tt (λ s h. h)
