-- ===== src/Cli.antt =====
-- The command line, packages/cloudspells-cli.
pub mod Machine
pub mod Changes
pub mod Templates
pub mod Project
pub mod Commands
pub mod New
pub mod Wizard
pub mod Output
pub mod Steps
pub mod Consent
pub mod Guards
pub mod Agreement
