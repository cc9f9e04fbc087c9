-- ===== src/Discover.antt =====
-- Service discovery: src/aduib_rpc/discover.
pub mod Instance
pub mod LoadBalance
pub mod Ring
pub mod Registry
pub mod Health
