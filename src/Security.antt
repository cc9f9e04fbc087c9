-- ===== src/Security.antt =====
-- The authorisation of src/aduib_rpc/security.
pub mod Rbac
