-- ===== src/LetsEncrypt/Cases.antt =====
-- A component with a key and a certificate for each of two domains, over files in memory.
use freedom_box.Base.{
  String, ◌≡◌, ◌≢◌, refl, sym, Bool, true, false, Bool-cases, inl, inr, Option, none, some, [], ◌∷◌,
  ◌==◌, arith, eq_iff, if◌then◌else◌,
}
use freedom_box.Dict.{Dict, lookup, insert}
use freedom_box.Dict.Laws.{lookup-insert, lookup-insert_self}
use freedom_box.LetsEncrypt.Defs.{
  listed, LetsEncrypt, Files, Privileged, files_of, target, copy_one, restart_daemons,
  copy_certificates, interested_domains, on_certificate_obtained, on_certificate_renewed,
}
use freedom_box.LetsEncrypt.Copied.{IsPrivileged, AreApart, on_certificate_obtained-IsCopied}

abbrev Disk : Type 0
Disk = Dict String

-- A source that is not there raises.
abbrev copy_found : Option String → Option String → Files → Disk → Option (Unit {0}) × Disk
copy_found (some k) (some v) to r = (some tt, insert to.certificate v (insert to.private_key k r))
copy_found _ _ to r = (none, r)

abbrev key_path : Bool → String
key_path true = "/var/lib/chat/a.key"
key_path false = "/var/lib/chat/b.key"

abbrev certificate_path : Bool → String
certificate_path true = "/var/lib/chat/a.crt"
certificate_path false = "/var/lib/chat/b.crt"

abbrev format_path : String → String → String
format_path path domain =
    if path == "{domain}.key"
    then key_path (domain == "a.example")
    else if path == "{domain}.crt"
    then certificate_path (domain == "a.example")
    else path

abbrev has_domain : String → Bool
has_domain path = if path == "{domain}.key" then true else path == "{domain}.crt"

abbrev on_disk : Privileged Disk
on_disk = record {
  has_domain = has_domain;
  format = format_path;
  copy_certificate = λ app source to user group r.
      copy_found (lookup source.private_key r) (lookup source.certificate r) to r;
  compare_certificate = λ app source to r. (some true, r);
  try_restart = λ daemon r. (some tt, r);
  try_reload_or_restart = λ daemon r. (some tt, r);
  get_status = λ r. (some [], r);
  list_names = λ r. [];
}

abbrev content : String → Disk → Option String
content x r = lookup x r

differ : (x y : String) → (x == y) ≡ false → x ≢ y
differ x y e q = absurd (ground (arith, (eq_iff x y).1 q))

not_equal : (x y : String) → x ≢ y → (x == y) ≡ false
not_equal x y h = elim (Bool-cases (x == y)) [ inl e ↦ absurd (h ((eq_iff x y).0 e)) | inr e ↦ e ]

copy_found_lem :
    (ko co : Option String) (to : Files) (r : Disk)
    → (copy_found ko co to r).0 ≡ some tt
    → to.private_key ≢ to.certificate
    → let end = (copy_found ko co to r).1 in
      (content to.private_key end ≡ ko)
      × (content to.certificate end ≡ co)
      × ((x : String) → x ≢ to.private_key → x ≢ to.certificate → content x end ≡ content x r)
copy_found_lem (some k) (some v) to r done apart =
    let other = not_equal to.certificate to.private_key (λ q. apart (sym q)) in
    (
      ground (
        arith,
        other,
        lookup-insert to.certificate to.private_key v (insert to.private_key k r),
        lookup-insert_self to.private_key k r,
      ),
      lookup-insert_self to.certificate v (insert to.private_key k r),
      λ x h g. ground (
        arith,
        lookup-insert to.certificate x v (insert to.private_key k r),
        lookup-insert to.private_key x k r,
        not_equal to.certificate x (λ q. g (sym q)),
        not_equal to.private_key x (λ q. h (sym q)),
      ),
    )
copy_found_lem (some k) none to r done apart = absurd (ground arith)
copy_found_lem none co to r done apart = absurd (ground arith)

format_path_lem : (path domain : String) → has_domain path ≡ false → format_path path domain ≡ path
format_path_lem path domain e = ground (arith, e)

on_disk-IsPrivileged : IsPrivileged on_disk content
on_disk-IsPrivileged = record {
  copied = λ app source to user group r done apart other.
      copy_found_lem (lookup source.private_key r) (lookup source.certificate r) to r done apart;
  formatted = format_path_lem;
  restarted = λ daemon x r. refl;
  reloaded = λ daemon x r. refl;
}

abbrev chat : LetsEncrypt
chat = record {
  domains = listed ("a.example" ∷ "b.example" ∷ []);
  daemons = some ("chat" ∷ []);
  reload_daemons = false;
  should_copy_certificates = true;
  private_key_path = "{domain}.key";
  certificate_path = "{domain}.crt";
  user_owner = "chat";
  group_owner = "chat";
  managing_app = "chat";
}

key-certificate : (b c : Bool) → key_path b ≢ certificate_path c
key-certificate true true = differ _ _ refl
key-certificate true false = differ _ _ refl
key-certificate false true = differ _ _ refl
key-certificate false false = differ _ _ refl

not_key :
    (x : String)
    → (x == key_path true) ≡ false
    → (x == key_path false) ≡ false
    → (b : Bool) → x ≢ key_path b
not_key x e h true = differ _ _ e
not_key x e h false = differ _ _ h

not_certificate :
    (x : String)
    → (x == certificate_path true) ≡ false
    → (x == certificate_path false) ≡ false
    → (b : Bool) → x ≢ certificate_path b
not_certificate x e h true = differ _ _ e
not_certificate x e h false = differ _ _ h

chat-AreApart : AreApart on_disk chat (files_of "/live/a")
chat-AreApart = record {
  own = λ d e. key-certificate (d == "a.example") (e == "a.example");
  key_of_key = λ d. not_key "/live/a/privkey.pem" refl refl (d == "a.example");
  key_of_certificate = λ d. not_certificate "/live/a/privkey.pem" refl refl (d == "a.example");
  certificate_of_key = λ d. not_key "/live/a/fullchain.pem" refl refl (d == "a.example");
  certificate_of_certificate =
      λ d. not_certificate "/live/a/fullchain.pem" refl refl (d == "a.example");
}

abbrev live : Disk
live = ("/live/a/privkey.pem", "key") ∷ ("/live/a/fullchain.pem", "chain") ∷ []

on_certificate_obtained-IsCopied_example :
    let end = (on_certificate_obtained on_disk chat ("b.example" ∷ []) "/live/a" live).1 in
    (on_certificate_renewed on_disk chat ("b.example" ∷ []) "/live/a" live
      ≡ on_certificate_obtained on_disk chat ("b.example" ∷ []) "/live/a" live)
    × (content (target on_disk chat "b.example").private_key end
        ≡ content (files_of "/live/a").private_key live)
    × (content (target on_disk chat "b.example").certificate end
        ≡ content (files_of "/live/a").certificate live)
unfolding interested_domains copy_certificates copy_one restart_daemons
on_certificate_obtained-IsCopied_example =
    on_certificate_obtained-IsCopied on_disk chat content on_disk-IsPrivileged "/live/a" "b.example"
      ("b.example" ∷ []) live chat-AreApart refl refl (unfold on_certificate_obtained in refl)
