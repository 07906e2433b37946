-- ===== src/Lib.antt =====
-- CloudSpells, a library of cloud "spells" over Pulumi: what is verified of its network core, of the
-- spells that are placed on a network, and of its command line.
--
-- A program makes a `Vcn` (or a `VcnRef` to one of another stack) and network security groups
-- (`Nsg`) on it. Groups carry roles; a role puts rules on its group, and `serves` connects two
-- groups. On a live network both also put rules in the security lists of the tiers. A VCN collects
-- rules until `finalize_network` turns them into security lists and subnets and freezes it.
--
-- A spell (`LoadBalancer`, `InternalLoadBalancer`, `Bastion`, `ComputeInstance`, `ScalableWorkload`,
-- `OkeCluster`) checks its arguments, adds its rules to the network, finalizes it, and declares its
-- resources in the subnets. A program places several of them on one network.
--
-- The command line renders such programs from templates and runs them through Pulumi's automation
-- API, one stack at a time (`up`, `destroy`, ...) or a project of several stacks, which it deploys in
-- order and destroys in reverse. A command changes files and asks the engine for operations.
--
-- Files, with the code they model (under packages/):
--   Naming: cloudspells-core/src/cloudspells/core/naming.py (`ResourceNamer`) and
--     cloudspells-oci/src/cloudspells/providers/oci/_naming.py (`ordinal_suffix`).
--   IpNetwork: the part of Python's `ipaddress` that the code uses, on integer addresses.
--   Subnets: `Vcn._split_tiers` of providers/oci/network.py and `Helper.calculate_subnets` of
--     core/helper.py.
--   Roles: core/abstractions/tiers.py and core/abstractions/roles.py.
--   Rules: core/abstractions/network.py, the translation of rules in network.py, and the rule
--     builders of providers/oci/nsg.py.
--   Vcn: class `Vcn` of network.py. Vcn/Defs has the state, the constructor and the rule builder,
--     Vcn/Gateways the gateways, Vcn/Finalize `finalize_network` and its steps, Vcn/Export `export`,
--     and Vcn/FlowLogs network_logging.py. The other files under Vcn/ have the proofs.
--   VcnRef: class `VcnRef` of network.py. VcnRef/FlowLogs has the flow logs on it.
--   Nsg: class `Nsg` of nsg.py. Nsg/Defs has one group with `add_rule` and the `allow_*` helpers,
--     Nsg/Roles the constructor, the rules of roles and `serves`, over a store of groups and networks
--     (`Cloud`), in which a reference is a key. The other files under Nsg/ have the proofs.
--   Volume: volume.py.
--   Spells: the spells of providers/oci, each as a function from its arguments and the network to
--     what it declares, with the network behind it. Spells/Site is the network that they are
--     given, a `Vcn` or a `VcnRef`; Spells/LoadBalancer models loadbalancer.py, Spells/Bastion
--     bastion.py, Spells/Compute compute.py, Spells/Workload and Spells/Scaling autoscale.py and
--     core/abstractions/autoscale.py, Spells/Oke kubernetes.py and helper.py, and Spells/Keys the
--     SSH keys of core/base.py. Spells/Outputs has what all spells export, with those of
--     storage.py and iam.py, and Spells/Agent genai_agent_rag.py, of which there are definitions
--     only. Spells/Deploy has programs of several spells. Spells/Compose, Spells/Effects and
--     Spells/Traffic have lemmas that they share.
--   Tagging: core/tagging.py. Base: core/base.py (`BaseResource`, `_spell_type_from_urn`). Storage:
--     providers/oci/storage.py. Iam: providers/oci/iam.py, of which there are definitions only.
--   Cli: cloudspells-cli/src/cloudspells/cli. Cli/Machine is the machine a command runs on (its
--     files, the stacks and the calls of the engine) with automation/workspace.py. Cli/Templates
--     and its files are templates/, Cli/Project is project/ and commands/project.py, Cli/New,
--     Cli/Wizard, Cli/Commands and Cli/Output are commands/, and Cli/Changes says what a run may
--     change. Cli/Project/Model and Cli/Project/Run have the reading of a project's file, the
--     report of states and the commands themselves; the other files under Cli/ have the proofs.
--   Common and Exec: shared types and lemmas. Exec is the monad of methods that change a state and
--     may raise: the state comes back beside an error, as Python leaves it.
--   Tests: the theorems at concrete inputs.
--
-- Fuel: the loop of `calculate_subnets` runs on as many rounds as subnets are asked for, which is
-- enough since each round doubles the count; the theorem on its result shows it. The constructor of
-- flow logs calls `finalize_network` again; `finalize_from` bounds the nesting, and two levels are
-- enough since the flag is set by then. `str` divides by ten on fuel above the number.
--
-- Parameters: reading and printing of addresses (`IpText`), the ids of resources and what else OCI
-- assigns to them, the outputs of other stacks, the CIDR of OCI's services and the IPv6 blocks that
-- OCI assigns. Texts are lists of code points, and outputs are their values. Messages of exceptions
-- are not kept. For the spells, making a pair of SSH keys, encoding a text, and the availability
-- domains are parameters too; a value that a spell only passes on is a text, and a port is not
-- negative. For the command line, the engine is a function of the operation asked and of all calls
-- before it, and YAML is a printer and a reader, with the reading back of what was printed as a
-- hypothesis. What the user answers is an argument, a path is taken as resolved, and class names
-- are ASCII.
--
-- Not modelled: resources beyond the data that the theorems are about (their options and defined
-- tags), writing a kubeconfig to a file, the class `Config`, and, of the command line, the texts
-- and tables that it prints, the colours and the passphrase.
pub mod Cli
pub mod Common
pub mod Exec
pub mod Naming
pub mod Tagging
pub mod Base
pub mod IpNetwork
pub mod Subnets
pub mod Roles
pub mod Rules
pub mod Vcn
pub mod VcnRef
pub mod Nsg
pub mod Volume
pub mod Storage
pub mod Iam
pub mod Spells
mod Tests
