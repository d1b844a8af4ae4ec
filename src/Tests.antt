-- ===== src/Tests.antt =====
-- Runs of the definitions on concrete inputs, and applications of the theorems to them.
mod Lifecycle
mod Stats
mod Client
mod Scenario
mod WtH2
mod Moq
mod Argv
mod Wav
mod Ice
mod Y4m
