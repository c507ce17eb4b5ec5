-- ===== src/Firewall.antt =====
-- plinth/modules/firewall/components.py: the ports that apps open in the zones of firewalld. `Defs` is
-- the components over an interface of firewalld, `Ports` what enabling and disabling does to the ports,
-- `Served` the invariant that the ports of enabled components stay open, `Diagnosis` the checks.
pub mod Defs
pub mod Ports
pub mod Served
pub mod Diagnosis
mod Tests
