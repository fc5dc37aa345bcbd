-- ===== src/Lockfile/Document/RoundTrip.antt =====
-- Reading what `serialize` wrote.
pub mod Steps
pub mod Packages
pub mod Selections
