-- ===== src/Firewall/Defs.antt =====
-- class Firewall of plinth/modules/firewall/components.py. firewalld stands behind an interface; what
-- the service does at errors of firewalld (try_with_reload) is not modelled.
use freedom_box.Base.{
  String, ◌≡◌, Bool, true, false, ◌&&◌, ◌||◌, not, List, [], ◌∷◌, ◌++◌, ◌==◌, if◌then◌else◌,
  contains,
}
use Prim.Native.String.{◌++◌ as str_append}
use freedom_box.Dict.{Dict, insert}

pub data Zone : Type 0 where
  internal external : Zone

abbrev pub same_zone : Zone → Zone → Bool
same_zone internal internal = true
same_zone external external = true
same_zone _ _ = false

-- get_enabled_services, add_service and remove_service of plinth/modules/firewall/__init__.py
pub record Firewalld (R : Type 0) : Type 0 where
  pub get_enabled_services : Zone → R → List String
  pub add_service : String → Zone → R → R
  pub remove_service : String → Zone → R → R

module _ {R : Type 0} where
  -- A service is added to and removed from the zone that is named, and no other changes.
  pub record IsFirewalld (f : Firewalld R) : Type 0 where
    pub added :
        (q p : String) (y z : Zone) (r : R)
        → contains p (f.get_enabled_services z (f.add_service q y r))
          ≡ (same_zone y z && q == p || contains p (f.get_enabled_services z r))
    pub removed :
        (q p : String) (y z : Zone) (r : R)
        → contains p (f.get_enabled_services z (f.remove_service q y r))
          ≡ (not (same_zone y z && q == p) && contains p (f.get_enabled_services z r))

-- Firewall.__init__, with the `_is_enabled` of FollowerComponent
pub record Firewall : Type 0 where
  pub name : String
  pub ports : List String
  pub is_external : Bool
  pub is_enabled : Bool

-- `_all_firewall_components`, by component ID, and the state of firewalld
pub record World (R : Type 0) : Type 0 where
  pub components : Dict Firewall
  pub firewalld : R

-- Whether another enabled component has the port, in one of the two lists of _disable: for the
-- external zone it must be external.
abbrev pub serves : Zone → String → Firewall → Bool
serves internal port c = contains port c.ports && c.is_enabled
serves external port c = contains port c.ports && (c.is_external && c.is_enabled)

unfoldable pub others_serve : Zone → String → String → Dict Firewall → Bool
others_serve z self port [] = false
others_serve z self port ((id, c) ∷ cs) =
    not (self == id) && serves z port c || others_serve z self port cs

-- A check of Firewall.diagnose: its ID and whether the result is PASSED, else it is FAILED.
abbrev pub check_port : Bool → List String → List String → String → List (String × Bool)
check_port is_external internal_ports external_ports port =
    (str_append "firewall-port-internal-" port, contains port internal_ports)
    ∷ (if is_external
        then (str_append "firewall-port-external-available-" port, contains port external_ports)
        else (
          str_append "firewall-port-external-unavailable-" port,
          not (contains port external_ports),
        ))
    ∷ []

abbrev pub check_ports : Bool → List String → List String → List String → List (String × Bool)
check_ports is_external internal_ports external_ports [] = []
check_ports is_external internal_ports external_ports (port ∷ ports) =
    check_port is_external internal_ports external_ports port
    ++ check_ports is_external internal_ports external_ports ports

module _ {R : Type 0} (f : Firewalld R) where
  open f use {get_enabled_services, add_service, remove_service}

  abbrev pub add_if : Bool → String → Zone → R → R
  add_if b port z r = if b then add_service port z r else r

  abbrev pub remove_if : Bool → String → Zone → R → R
  remove_if b port z r = if b then remove_service port z r else r

  -- One round of the loop of _enable; the two lists were read before the loop.
  unfoldable pub open_port : List String → List String → Bool → String → R → R
  open_port internal_ports external_ports is_external port r =
      add_if (is_external && not (contains port external_ports)) port external
        (add_if (not (contains port internal_ports)) port internal r)

  unfoldable pub open_ports : List String → List String → Bool → List String → R → R
  unfolding open_port
  open_ports internal_ports external_ports is_external [] r = r
  open_ports internal_ports external_ports is_external (port ∷ ports) r =
      open_ports internal_ports external_ports is_external ports
        (open_port internal_ports external_ports is_external port r)

  -- Firewall.enable with Firewall._enable
  unfoldable pub enable : String → Firewall → World R → World R
  unfolding open_ports
  enable id c w = record {
    components = insert id (record c { is_enabled = true }) w.components;
    firewalld =
        open_ports (get_enabled_services internal w.firewalld)
          (get_enabled_services external w.firewalld) c.is_external c.ports w.firewalld;
  }

  -- One round of the loop of _disable
  unfoldable pub close_port : List String → List String → Dict Firewall → String → String → R → R
  unfolding others_serve
  close_port internal_ports external_ports components id port r =
      remove_if (contains port external_ports && not (others_serve external id port components))
        port external
        (remove_if (contains port internal_ports && not (others_serve internal id port components))
          port internal r)

  unfoldable pub close_ports :
      List String → List String → Dict Firewall → String → List String → R → R
  unfolding close_port
  close_ports internal_ports external_ports components id [] r = r
  close_ports internal_ports external_ports components id (port ∷ ports) r =
      close_ports internal_ports external_ports components id ports
        (close_port internal_ports external_ports components id port r)

  -- Firewall.disable with Firewall._disable; `_is_enabled` is cleared first.
  unfoldable pub disable : String → Firewall → World R → World R
  unfolding close_ports
  disable id c w =
      let components = insert id (record c { is_enabled = false }) w.components in
      record {
        components = components;
        firewalld =
            close_ports (get_enabled_services internal w.firewalld)
              (get_enabled_services external w.firewalld) components id c.ports w.firewalld;
      }

  -- Firewall.diagnose
  unfoldable pub diagnose : Firewall → R → List (String × Bool)
  diagnose c r =
      check_ports c.is_external (get_enabled_services internal r) (get_enabled_services external r)
        c.ports
