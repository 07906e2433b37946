-- ===== src/Vcn/Defs.antt =====
-- The state of a VCN, its constructor, and the operations that add rules before it is finalized.
use cloudspells.Common.{ℕ, Bool, false, Option, none, some, List, [], ◌∷◌, map, if◌then◌else◌}
use cloudspells.Common.Text.{Text, codes, contains, or_text}
use cloudspells.Exec.{Action, Result, ok, err, runtime_error}
use cloudspells.Naming.{ResourceNamer, create_resource_name}
use cloudspells.IpNetwork.{IpText}
use cloudspells.Roles.{SubnetTier, public, private, secure, management, PerTier, at_tier}
use cloudspells.Rules.{
  AddressType, cidr_block, service_cidr_block, SlIngress, SlEgress, SlRules, SecurityRules,
  no_rules, extend, internet, translate_ingress_rule, translate_egress_rule,
}
use cloudspells.Common.Int.{ℤ, pos}
use cloudspells.Subnets.{SubnetCidrs, split_tiers}

pub data Gateway : Type 0 where
  internet_gateway nat_gateway service_gateway drg : Gateway

pub record RouteRule : Type 0 where
  pub destination : Text
  pub destination_type : AddressType
  pub network_entity : Gateway

pub record RouteTable : Type 0 where
  pub display_name : Text
  pub route_rules : List RouteRule

pub record SecurityList : Type 0 where
  pub display_name : Text
  pub ingress_security_rules : List SlIngress
  pub egress_security_rules : List SlEgress

-- `ipv6cidr_block` is what the callback of the VCN's output returns, or raises.
pub record Subnet : Type 0 where
  pub display_name : Text
  pub cidr : Text
  pub ipv6cidr_block : Option (Result Text)
  pub dns_label : Text
  pub prohibit_public_ip_on_vnic : Bool
  pub prohibit_internet_ingress : Bool
  pub security_list : SecurityList
  pub route_table : RouteTable

pub record FlowLog : Type 0 where
  pub display_name : Text
  pub subnet_tier : Text
  pub resource : Subnet
  pub log_group : Text
  pub retention_duration : ℕ

pub record VcnFlowLogs : Type 0 where
  pub log_group : Text
  pub public_flow_log : FlowLog
  pub private_flow_log : FlowLog
  pub secure_flow_log : Option FlowLog
  pub management_flow_log : Option FlowLog

-- What the constructor is called with. `ipv6cidr_blocks` and `svc_cidr_block` are the values of
-- outputs: the blocks that OCI assigns to the VCN and the CIDR of all its services.
pub record VcnArgs : Type 0 where
  pub name : Text
  pub stack_name : Text
  pub compartment_id : Option Text
  pub cidr_block : Text
  pub ipv6_enabled : Bool
  pub flow_logs : Bool
  pub flow_logs_retention : ℕ
  pub drg : Bool
  pub on_premise_cidrs : List Text
  pub svc_cidr_block : Text
  pub ipv6cidr_blocks : List Text

pub record Vcn : Type 0 where
  pub args : VcnArgs
  pub block : Text
  pub subnet_cidrs : SubnetCidrs
  pub rules : SlRules
  pub security_lists_finalized : Bool
  pub applied_ambient_rule_fingerprints : List Text
  pub route_tables : PerTier RouteTable
  pub security_lists : PerTier (Option SecurityList)
  pub subnets : PerTier (Option Subnet)
  pub flow_logs : Option VcnFlowLogs

abbrev pub namer : VcnArgs → ResourceNamer
namer a = record { stack_name = a.stack_name; resource_name = a.name }

icmp_rule : Text → Option ℤ → Text → SlIngress
icmp_rule source code description = record {
  protocol = codes "1";
  source = source;
  source_type = cidr_block;
  tcp_options = none;
  icmp_options = some (record { type = 3; code = code });
  description = description;
}

-- The ingress that a VCN starts with, on the public tier.
unfoldable pub initial_rules : Text → SlRules
unfolding icmp_rule
initial_rules block = record (no_rules {I = SlIngress} {E = SlEgress}) {
  public_ingress =
      icmp_rule internet (some (pos 4))
        (codes "ICMP 3,4: Destination Unreachable / Fragmentation Needed")
      ∷ icmp_rule block none (codes "ICMP traffic for: 3 Destination Unreachable")
      ∷ [];
}

unfoldable pub to_gateway : Text → Gateway → RouteRule
to_gateway destination gateway = record {
  destination = destination;
  destination_type = cidr_block;
  network_entity = gateway;
}

unfoldable pub services_route : Text → RouteRule
services_route svc_cidr_block = record {
  destination = svc_cidr_block;
  destination_type = service_cidr_block;
  network_entity = service_gateway;
}

-- The routes to on-premise networks, for the tiers that get them.
unfoldable pub on_premise_routes : VcnArgs → List RouteRule
unfolding to_gateway
on_premise_routes a = if a.drg then map (λ cidr. to_gateway cidr drg) a.on_premise_cidrs else []

unfoldable pub create_route_tables : VcnArgs → PerTier RouteTable
unfolding to_gateway services_route on_premise_routes
create_route_tables a =
    let named = λ (suffix : Text). create_resource_name (namer a) suffix in
    record {
      at_public = record {
        display_name = named (codes "rt-public");
        route_rules = to_gateway internet internet_gateway ∷ [];
      };
      at_private = record {
        display_name = named (codes "rt-private");
        route_rules =
            to_gateway internet nat_gateway ∷ services_route a.svc_cidr_block ∷ on_premise_routes a;
      };
      at_secure = record {
        display_name = named (codes "rt-secure");
        route_rules = services_route a.svc_cidr_block ∷ on_premise_routes a;
      };
      at_management = record {
        display_name = named (codes "rt-management");
        route_rules = services_route a.svc_cidr_block ∷ on_premise_routes a;
      };
    }

abbrev nothing : {A : Type 0} → PerTier (Option A)
nothing = record { at_public = none; at_private = none; at_secure = none; at_management = none }

unfoldable pub initial_vcn : VcnArgs → Text → SubnetCidrs → Vcn
unfolding initial_rules create_route_tables
initial_vcn a block cidrs = record {
  args = a;
  block = block;
  subnet_cidrs = cidrs;
  rules = initial_rules block;
  security_lists_finalized = false;
  applied_ambient_rule_fingerprints = [];
  route_tables = create_route_tables a;
  security_lists = nothing;
  subnets = nothing;
  flow_logs = none;
}

abbrev pub vcn_block : VcnArgs → Text
vcn_block a = or_text a.cidr_block (codes "10.0.0.0/18")

-- `Vcn(…)`: splitting the address block is the step that may raise.
unfoldable pub new_vcn : IpText → VcnArgs → Result Vcn
unfolding initial_vcn
new_vcn ip a = elim (split_tiers ip (vcn_block a)) [
  | err e ↦ err e
  | ok cidrs ↦ ok (initial_vcn a (vcn_block a) cidrs)
]

unfoldable pub add_security_list_rules : SlRules → Action Vcn
add_security_list_rules added v =
    if v.security_lists_finalized
    then (err runtime_error, v)
    else (ok tt, record v { rules = extend v.rules added })

unfoldable pub has_ambient_rule : Vcn → Text → Bool
has_ambient_rule v fingerprint = contains v.applied_ambient_rule_fingerprints fingerprint

-- The fingerprint is recorded before the rules are added.
unfoldable pub add_unique_security_list_rules : Text → SlRules → Action Vcn
unfolding add_security_list_rules has_ambient_rule
add_unique_security_list_rules fingerprint added v =
    if has_ambient_rule v fingerprint
    then (ok tt, v)
    else add_security_list_rules added (record v {
      applied_ambient_rule_fingerprints = fingerprint ∷ v.applied_ambient_rule_fingerprints;
    })

-- The rules of the abstraction, translated for OCI.
abbrev pub translated : Text → SecurityRules → SlRules
translated svc_cidr_block r =
    let egress = map (λ rule. translate_egress_rule rule svc_cidr_block) in
    record {
      public_ingress = map translate_ingress_rule r.public_ingress;
      public_egress = egress r.public_egress;
      private_ingress = map translate_ingress_rule r.private_ingress;
      private_egress = egress r.private_egress;
      secure_ingress = map translate_ingress_rule r.secure_ingress;
      secure_egress = egress r.secure_egress;
      management_ingress = map translate_ingress_rule r.management_ingress;
      management_egress = egress r.management_egress;
    }

unfoldable pub add_security_rules : SecurityRules → Action Vcn
unfolding add_security_list_rules
add_security_rules r v = add_security_list_rules (translated v.args.svc_cidr_block r) v

-- `get_public_subnet_cidr` to `get_management_subnet_cidr`
abbrev pub subnet_cidr : Vcn → SubnetTier → Text
subnet_cidr v public = v.subnet_cidrs.public
subnet_cidr v private = v.subnet_cidrs.private
subnet_cidr v secure = v.subnet_cidrs.secure
subnet_cidr v management = v.subnet_cidrs.management

-- `get_public_subnet_id` to `get_management_subnet_id`
unfoldable pub subnet_id : Vcn → SubnetTier → Result Text
subnet_id v tier = elim (at_tier v.subnets tier) [
  | none ↦ err runtime_error
  | some subnet ↦ ok subnet.display_name
]
