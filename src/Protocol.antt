-- ===== src/Protocol.antt =====
-- The parts of src/aduib_rpc/protocol/v2 and of the wire formats that compute.
pub mod Errors
pub mod Wire
pub mod Messages
pub mod Proto
pub mod Thrift
