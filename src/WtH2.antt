-- ===== src/WtH2.antt =====
-- The receive side of WebTransport over HTTP/2: zakuro-moq/src/moq_client/wt_h2.rs.
pub mod Types
pub mod Ops
pub mod Window
pub mod Moves
pub mod Bounded
pub mod Credit
pub mod Opens
