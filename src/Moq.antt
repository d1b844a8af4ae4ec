-- ===== src/Moq.antt =====
-- The publisher of a track over MOQT.
pub mod Types
pub mod Ops
pub mod Send
pub mod Run
pub mod Receive
pub mod Inv
pub mod Counts
pub mod Ordered
pub mod LastOfGroup
pub mod Pace
pub mod Incoming
