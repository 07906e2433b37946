-- ===== src/Vcn.antt =====
-- `Vcn` of packages/cloudspells-oci/src/cloudspells/providers/oci/network.py, and `VcnFlowLogs` of
-- network_logging.py there, which a VCN makes when it is finalized. A resource that OCI creates is
-- the record of the arguments that it is declared with; its id is its name.
pub mod Defs
pub mod Routes
pub mod Gateways
pub mod Finalize
pub mod FlowLogs
pub mod Lifecycle
pub mod Depth
pub mod Frame
pub mod Ledger
pub mod Collect
pub mod Export
pub mod Addresses
