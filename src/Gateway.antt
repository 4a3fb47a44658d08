-- ===== src/Gateway.antt =====
-- services/gateway: the API. Sql is utils/safe_sql.py, Audit utils/audit.py, Rows what the features on
-- tables of a tenant share, Mab the whitelist of devices, Mappings the VLANs of groups, Vlans the
-- VLANs, Auth the feature of users and logins.
pub mod Sql
pub mod Audit
pub mod Rows
pub mod Mab
pub mod Mappings
pub mod Vlans
pub mod Auth
