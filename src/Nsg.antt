-- ===== src/Nsg.antt =====
-- `Nsg` of packages/cloudspells-oci/src/cloudspells/providers/oci/nsg.py: network security groups,
-- with the roles that rules are inferred from. Groups and networks are shared objects: they live
-- in a store, and a reference is a key of it.
pub mod Defs
pub mod Roles
pub mod Grows
pub mod Valid
pub mod Serves
pub mod Repeat
pub mod Everywhere
pub mod Program
pub mod Shield
pub mod Lists
pub mod Tiers
