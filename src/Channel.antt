-- ===== src/Channel.antt =====
-- Messages on data channels: zakuro/src/data_channel.rs.
pub mod Bytes
pub mod Message
pub mod Xorshift
pub mod Layout
pub mod Config
pub mod Sizes
pub mod Sender
pub mod Counters
pub mod Run
