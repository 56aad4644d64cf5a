-- ===== src/Tests.antt =====
-- The theorems at concrete data, part by part.
pub mod Sdk
pub mod Flags
pub mod Wizard
pub mod Web
pub mod Admin
pub mod Pages
pub mod Session
