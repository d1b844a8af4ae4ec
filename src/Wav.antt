-- ===== src/Wav.antt =====
-- The reader of WAV files: zakuro/src/wav_reader.rs.
pub mod Types
pub mod Parse
pub mod Ops
pub mod Looping
