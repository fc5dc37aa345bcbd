-- ===== src/Tests.antt =====
-- Concrete inputs, at which the theorems are applied.
mod Data
mod Lockfile
mod RefParser
mod Plugin
mod Loader
mod Configuration
mod Packages
mod BuildSteps
mod Linking
mod CompileCommands
