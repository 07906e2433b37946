-- ===== src/Spells/Oke.antt =====
-- kubernetes.py: `OkeCluster` and `OkeClusterEnhanced`.
pub mod Lists
pub mod Rules
pub mod Cluster
pub mod Mirror
pub mod Exposure
