-- ===== src/Observer.antt =====
-- The observation of media in statistics samples: zakuro/src/media_observer.rs.
pub mod Ops
pub mod Tables
pub mod Quiet
pub mod Frozen
