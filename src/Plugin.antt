-- ===== src/Plugin.antt =====
-- src/core/plugin, a module for each part.
pub mod TestFrameworks
pub mod Descriptors
pub mod Manifest
pub mod Loader
pub mod StaticRegistry
