-- ===== src/Configuration.antt =====
-- src/core/configuration, a module for each part.
pub mod Package
pub mod Build
pub mod Profiles
pub mod Selection
pub mod Validation
pub mod Packages
pub mod BuildSteps
pub mod Linking
pub mod CompileCommands
