-- ===== src/Orgs.antt =====
-- Organizations and their members: user-service.
pub mod Roles
pub mod Members
pub mod Authority
pub mod Owners
