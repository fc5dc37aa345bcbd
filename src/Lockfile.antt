-- ===== src/Lockfile.antt =====
-- src/core/cli/commands/lockfile.hpp and lockfile.cpp, a module for each part.
pub mod Text
pub mod Document
pub mod Walk
