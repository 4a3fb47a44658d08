-- ===== src/Config.antt =====
-- services/auth/freeradius_config_manager.py and freeradius_config_watcher.py: the configuration of
-- FreeRADIUS, written from the database, and the daemon that keeps it up to date.
pub mod Tables
pub mod Templates
pub mod Realms
pub mod Clients
pub mod Files
pub mod State
pub mod Certs
pub mod Apply
pub mod Watcher
pub mod Tracker
pub mod Rounds
pub mod Settled
mod Names
mod Times
pub mod CertFiles
pub mod Lines
mod Tests
