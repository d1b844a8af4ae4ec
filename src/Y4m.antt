-- ===== src/Y4m.antt =====
-- zakuro/src/y4m_reader.rs: the frames of a file, played in a loop.
pub mod Ops
pub mod Frames
pub mod Turn
pub mod Looping
