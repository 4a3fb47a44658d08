-- ===== src/Rlm.antt =====
-- services/auth/freeradius/mods-config/python/rlm_orw.py, the module that FreeRADIUS calls.
pub mod Attrs
pub mod Method
pub mod Failure
pub mod Tables
pub mod Mab
pub mod Groups
pub mod PostAuth
pub mod Access
pub mod Vlan
pub mod Assigned
pub mod Priority
mod Tests
