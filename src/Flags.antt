-- ===== src/Flags.antt =====
-- web/src/components/flags and web/src/app/flags: the pages of the feature flags.
pub mod Labels
pub mod Mutation
pub mod Values
pub mod Edit
pub mod Created
pub mod Create
pub mod Page
