-- ===== src/Argv.antt =====
-- The command lines of zakuro/src/args.rs and zakuro-moq/src/args.rs.
pub mod Ops
pub mod LastWins
pub mod Split
