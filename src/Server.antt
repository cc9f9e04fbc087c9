-- ===== src/Server.antt =====
-- The server's side of a request: src/aduib_rpc/server.
pub mod Handler
pub mod Interceptor
pub mod Qos
pub mod MethodName
pub mod Credentials
pub mod Security
pub mod Chain
pub mod Runtime
