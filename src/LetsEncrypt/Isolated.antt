-- ===== src/LetsEncrypt/Isolated.antt =====
-- A certificate event reaches every component, whatever the hooks of the others raise.
use freedom_box.Base.{
  String, ◌≡◌, refl, Bool, true, false, some, List, [], ◌∷◌, ◌++◌, if◌then◌else◌,
}
use freedom_box.Effect.{M}
use freedom_box.LetsEncrypt.Defs.{LetsEncrypt, Privileged}
use freedom_box.LetsEncrypt.Events.{
  Event, event_of, Listener, hook, handle, dispatch, lineage_of, note_time,
  on_certificate_event_sync,
}

module _ {R : Type 0} (p : Privileged R) (live_path : String → String)
    (set_last_seen : String → M R (Unit {0})) where
  dispatch-append :
      (event : Event) (domains : List String) (lineage : String) (ls ms : List (Listener R)) (r : R)
      → dispatch p live_path set_last_seen event domains lineage (ls ++ ms) r
        ≡ dispatch p live_path set_last_seen event domains lineage ms
            (dispatch p live_path set_last_seen event domains lineage ls r)
  unfolding dispatch
  dispatch-append event domains lineage [] ms r = refl
  dispatch-append event domains lineage (l ∷ ls) ms r =
      dispatch-append event domains lineage ls ms
        (handle p live_path set_last_seen event domains lineage l r)

  -- The hooks of these components keep what holds of the state.
  unfoldable pub AllKeep : (R → Type 0) → Event → List String → String → List (Listener R) → Type 0
  AllKeep P event domains lineage [] = Unit {0}
  AllKeep P event domains lineage (l ∷ ls) =
      ((r : R) → P r → P (hook p live_path set_last_seen event l.component domains lineage r).1)
      × AllKeep P event domains lineage ls

  handled : (P : R → Type 0) (b : Bool) (r s : R) → P r → P s → P (if b then r else s)
  handled P true r s before after = before
  handled P false r s before after = after

  dispatch-AllKeep :
      (P : R → Type 0) (event : Event) (domains : List String) (lineage : String)
      (ls : List (Listener R)) (r : R)
      → AllKeep P event domains lineage ls
      → P r
      → P (dispatch p live_path set_last_seen event domains lineage ls r)
  unfolding dispatch AllKeep
  dispatch-AllKeep P event domains lineage [] r keep h = h
  dispatch-AllKeep P event domains lineage (l ∷ ls) r keep h =
      dispatch-AllKeep P event domains lineage ls
        (handle p live_path set_last_seen event domains lineage l r) keep.1
        (handled P (l.needs_setup r) r
          (hook p live_path set_last_seen event l.component domains lineage r).1 h (keep.0 r h))

-- An event with a known name and a lineage, for a component whose app is set up: what the hook of the
-- component brings about from any state holds in the end, when the hooks of the later components and
-- the noting of the time leave it. The hooks of the earlier components are any, and all hooks can
-- raise.
pub on_certificate_event_sync_reaches :
    {R : Type 0} (p : Privileged R) (live_path : String → String)
    (set_last_seen : String → M R (Unit {0})) (P : R → Type 0) (name : String) (event : Event)
    (domains : List String) (lineage path : String) (before : List (Listener R)) (c : LetsEncrypt)
    (after : List (Listener R)) (r : R)
    → event_of name ≡ some event
    → lineage_of p live_path set_last_seen lineage domains ≡ some path
    → ((s : R) → P (hook p live_path set_last_seen event c domains path s).1)
    → AllKeep p live_path set_last_seen P event domains path after
    → ((s : R) → P s → P (note_time p live_path set_last_seen event path s).1)
    → P
        (on_certificate_event_sync p live_path set_last_seen
          (before ++ record { needs_setup = λ s. false; component = c } ∷ after)
          name
          domains
          lineage
          r).1
unfolding on_certificate_event_sync dispatch
on_certificate_event_sync_reaches p live_path set_last_seen P name event domains lineage path before
      c after r known given brings keep noted =
    let first = dispatch p live_path set_last_seen event domains path before r in
    let own = (hook p live_path set_last_seen event c domains path first).1 in
    let all =
      dispatch-append p live_path set_last_seen event domains path before
        (record { needs_setup = λ s. false; component = c } ∷ after) r in
    rw (given, known, all)
      (noted (dispatch p live_path set_last_seen event domains path after own) (
        dispatch-AllKeep p live_path set_last_seen P event domains path after own keep
          (brings first)))
