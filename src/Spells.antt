-- ===== src/Spells.antt =====
-- The spells that are placed on a network.
pub mod Site
pub mod LoadBalancer
pub mod Bastion
pub mod Keys
pub mod Compute
pub mod Scaling
pub mod Workload
pub mod Oke
pub mod Traffic
pub mod Compose
pub mod Outputs
pub mod Agent
pub mod Effects
pub mod Deploy
