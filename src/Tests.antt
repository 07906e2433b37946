-- ===== src/Tests.antt =====
-- Concrete networks, groups and calls, and each theorem with conditions at such an input.
pub mod Addresses
pub mod Networks
pub mod Imports
pub mod Groups
pub mod Volumes
pub mod Spells
pub mod Codec
pub mod Outputs
pub mod Cli
