-- ===== src/Coa.antt =====
-- services/auth/coa_manager.py and coa_service.py: RADIUS Change of Authorization (RFC 5176).
pub mod Bytes
pub mod RadiusCode
pub mod RadiusAttr
pub mod Packet
pub mod Like
pub mod Tables
pub mod Manager
pub mod Operations
pub mod Handlers
pub mod Sending
pub mod Responses
pub mod Lookup
mod Tests
