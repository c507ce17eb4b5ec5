-- ===== src/LetsEncrypt/Events.antt =====
-- on_certificate_event_sync of plinth/modules/letsencrypt/components.py, for a list of domains. The
-- join of the path of a lineage is an argument.
use freedom_box.Base.{String, Bool, Option, none, some, List, [], ◌∷◌, ◌==◌, if◌then◌else◌}
use freedom_box.Effect.{M, pure, or_raise, ◌>>=◌}
use freedom_box.LetsEncrypt.Defs.{
  LetsEncrypt, Privileged, on_certificate_obtained, on_certificate_renewed, on_certificate_revoked,
  on_certificate_deleted,
}

pub data Event : Type 0 where
  obtained renewed revoked deleted : Event

-- The assertion on the event
abbrev pub event_of : String → Option Event
event_of name =
    if name == "obtained"
    then some obtained
    else if name == "renewed"
    then some renewed
    else if name == "revoked"
    then some revoked
    else if name == "deleted"
    then some deleted
    else none

-- A component with whether its app needs setup; a component of no app is as one that does not.
pub record Listener (R : Type 0) : Type 0 where
  pub needs_setup : R → Bool
  pub component : LetsEncrypt

module _ {R : Type 0} (p : Privileged R) (live_path : String → String)
    (set_last_seen : String → M R (Unit {0})) where
  abbrev pub hook : Event → LetsEncrypt → List String → String → M R (Unit {0})
  hook obtained = on_certificate_obtained p
  hook renewed = on_certificate_renewed p
  hook revoked = on_certificate_revoked p
  hook deleted = on_certificate_deleted p

  -- One round of the loop: an exception of the hook is logged.
  abbrev pub handle : Event → List String → String → Listener R → R → R
  handle event domains lineage l r =
      if l.needs_setup r then r else (hook event l.component domains lineage r).1

  -- The loop over the components
  unfoldable pub dispatch : Event → List String → String → List (Listener R) → R → R
  dispatch event domains lineage [] r = r
  dispatch event domains lineage (l ∷ ls) r =
      dispatch event domains lineage ls (handle event domains lineage l r)

  -- The lineage that is given, or that of the first domain, where `none` is IndexError
  abbrev pub lineage_of : String → List String → Option String
  lineage_of lineage [] = if lineage == "" then none else some lineage
  lineage_of lineage (domain ∷ domains) =
      if lineage == "" then some (live_path domain) else some lineage

  abbrev pub note_time : Event → String → M R (Unit {0})
  note_time obtained lineage = set_last_seen lineage
  note_time renewed lineage = set_last_seen lineage
  note_time revoked lineage = pure tt
  note_time deleted lineage = pure tt

  -- on_certificate_event_sync
  unfoldable pub on_certificate_event_sync :
      List (Listener R) → String → List String → String → M R (Unit {0})
  unfolding dispatch
  on_certificate_event_sync listeners name domains lineage =
      or_raise (λ r. lineage_of lineage domains) >>= λ path.
      (or_raise (λ r. event_of name) >>= λ event r.
      note_time event path (dispatch event domains path listeners r))
