-- ===== src/Vcn/Finalize.antt =====
-- `finalize_network` and its steps.
use cloudspells.Common.{
  ℕ, zero, suc, Bool, true, false, not, Option, none, some, List, [], ◌∷◌, if◌then◌else◌, get_elem?,
}
use cloudspells.Common.Text.{Text, codes}
use cloudspells.Exec.{
  Action, Result, ok, err, runtime_error, index_error, assertion_error, recursion_error,
  attribute_error, modify, raise_if, when, ◌>>=◌, ◌>>◌,
}
use cloudspells.Naming.{create_resource_name, create_dns_label}
use cloudspells.IpNetwork.{IpText, subnets_to}
use cloudspells.Roles.{SubnetTier, public, private, secure, management, PerTier, at_tier}
use cloudspells.Rules.{
  SlIngress, SlEgress, SlRules, no_rules, cidr_block, service_cidr_block, internet,
}
use cloudspells.Vcn.Defs.{Vcn, Subnet, SecurityList, namer, subnet_cidr, add_security_list_rules}
use cloudspells.Vcn.FlowLogs.{FlowLogsArgs, new_flow_logs}

nat_egress : SlEgress
nat_egress = record {
  protocol = codes "all";
  destination = internet;
  destination_type = cidr_block;
  tcp_options = none;
  description = codes "Egress to internet via NAT Gateway";
}

svc_egress : Text → SlEgress
svc_egress svc_cidr_block = record {
  protocol = codes "all";
  destination = svc_cidr_block;
  destination_type = service_cidr_block;
  tcp_options = none;
  description = codes "Egress to OCI services via Service Gateway";
}

-- The rules that every VCN gets.
unfoldable pub baseline : Text → SlRules
unfolding nat_egress svc_egress
baseline svc_cidr_block = record (no_rules {I = SlIngress} {E = SlEgress}) {
  private_egress = nat_egress ∷ svc_egress svc_cidr_block ∷ [];
  secure_egress = svc_egress svc_cidr_block ∷ [];
  management_egress = svc_egress svc_cidr_block ∷ [];
}

unfoldable pub inject_baseline_rules : Action Vcn
unfolding add_security_list_rules
inject_baseline_rules v = add_security_list_rules (baseline v.args.svc_cidr_block) v

-- One security list for each tier, with the rules that have been collected for it.
unfoldable pub security_lists_of : Vcn → PerTier SecurityList
security_lists_of v =
    let named = λ (suffix : Text). create_resource_name (namer v.args) suffix in
    record {
      at_public = record {
        display_name = named (codes "sl-public");
        ingress_security_rules = v.rules.public_ingress;
        egress_security_rules = v.rules.public_egress;
      };
      at_private = record {
        display_name = named (codes "sl-private");
        ingress_security_rules = v.rules.private_ingress;
        egress_security_rules = v.rules.private_egress;
      };
      at_secure = record {
        display_name = named (codes "sl-secure");
        ingress_security_rules = v.rules.secure_ingress;
        egress_security_rules = v.rules.secure_egress;
      };
      at_management = record {
        display_name = named (codes "sl-management");
        ingress_security_rules = v.rules.management_ingress;
        egress_security_rules = v.rules.management_egress;
      };
    }

abbrev pub all_some : {A : Type 0} → PerTier A → PerTier (Option A)
all_some p = record {
  at_public = some p.at_public;
  at_private = some p.at_private;
  at_secure = some p.at_secure;
  at_management = some p.at_management;
}

unfoldable pub create_security_lists : Action Vcn
unfolding security_lists_of
create_security_lists v = (ok tt, record v { security_lists = all_some (security_lists_of v) })

-- The `idx`-th /64 of the first block that OCI assigned.
unfoldable pub compute_ipv6_subnet_cidr : IpText → List Text → ℕ → Result Text
compute_ipv6_subnet_cidr ip [] idx = err index_error
compute_ipv6_subnet_cidr ip (block ∷ blocks) idx = elim (ip.ip_network block) [
  | err e ↦ err e
  | ok net ↦ elim (subnets_to net 64) [
    | err e ↦ err e
    | ok nets ↦ elim (get_elem? nets idx) [ none ↦ err index_error | some n ↦ ok (ip.to_text n) ]
  ]
]

-- The table of `_SubnetConfig`s: what differs from tier to tier.
abbrev pub is_public_tier : SubnetTier → Bool
is_public_tier public = true
is_public_tier _ = false

subnet_suffix : SubnetTier → Text
subnet_suffix public = codes "sn-public"
subnet_suffix private = codes "sn-private"
subnet_suffix secure = codes "sn-secure"
subnet_suffix management = codes "sn-management"

dns_prefix : SubnetTier → Text
dns_prefix public = codes "pub"
dns_prefix private = codes "priv"
dns_prefix secure = codes "sec"
dns_prefix management = codes "mgmt"

abbrev pub ipv6_index : SubnetTier → ℕ
ipv6_index public = 2
ipv6_index private = 0
ipv6_index secure = 1
ipv6_index management = 3

unfoldable pub create_subnet : IpText → Vcn → SubnetTier → SecurityList → Subnet
unfolding subnet_suffix dns_prefix
create_subnet ip v tier security_list = record {
  display_name = create_resource_name (namer v.args) (subnet_suffix tier);
  cidr = subnet_cidr v tier;
  ipv6cidr_block =
      if v.args.ipv6_enabled
      then some (compute_ipv6_subnet_cidr ip v.args.ipv6cidr_blocks (ipv6_index tier))
      else none;
  dns_label = create_dns_label (namer v.args) (dns_prefix tier);
  prohibit_public_ip_on_vnic = not (is_public_tier tier);
  prohibit_internet_ingress = not (is_public_tier tier);
  security_list = security_list;
  route_table = at_tier v.route_tables tier;
}

abbrev put_subnet : SubnetTier → Subnet → PerTier (Option Subnet) → PerTier (Option Subnet)
put_subnet public subnet p = record p { at_public = some subnet }
put_subnet private subnet p = record p { at_private = some subnet }
put_subnet secure subnet p = record p { at_secure = some subnet }
put_subnet management subnet p = record p { at_management = some subnet }

-- A round of the loop: `getattr` raises where the security list is not there.
unfoldable pub create_subnet_for : IpText → SubnetTier → Action Vcn
create_subnet_for ip tier v = elim (at_tier v.security_lists tier) [
  | none ↦ (err attribute_error, v)
  | some security_list ↦
      let subnet = create_subnet ip v tier security_list in
      (ok tt, record v { subnets = put_subnet tier subnet v.subnets })
]

unfoldable pub create_subnets : IpText → Action Vcn
unfolding create_subnet_for
create_subnets ip = do
  create_subnet_for ip public
  create_subnet_for ip private
  create_subnet_for ip secure
  create_subnet_for ip management

abbrev pub flow_logs_args : Vcn → FlowLogsArgs
flow_logs_args v = record {
  namer = namer v.args;
  compartment_id = v.args.compartment_id;
  retention_duration = v.args.flow_logs_retention;
}

-- `self.flow_logs = VcnFlowLogs(…)`
unfoldable pub attach_flow_logs : Action Vcn → Action Vcn
unfolding new_flow_logs
attach_flow_logs finalize v = elim v.args.compartment_id [
  | none ↦ (err runtime_error, v)
  | some compartment ↦
      (do
        logs ← new_flow_logs finalize (flow_logs_args v)
        modify (λ (w : Vcn). record w { flow_logs = some logs }))
        v
]

abbrev missing : Option Subnet → Bool
missing none = true
missing (some subnet) = false

unfoldable pub assert_subnets : Action Vcn
assert_subnets v =
    (do
      raise_if (missing v.subnets.at_public) assertion_error
      raise_if (missing v.subnets.at_private) assertion_error
      raise_if (missing v.subnets.at_secure) assertion_error
      raise_if (missing v.subnets.at_management) assertion_error)
      v

-- The steps up to the flag.
unfoldable pub seal : IpText → Action Vcn
unfolding inject_baseline_rules create_security_lists create_subnets
seal ip = do
  inject_baseline_rules
  create_security_lists
  create_subnets ip
  modify (λ (w : Vcn). record w { security_lists_finalized = true })

-- The call in the flow logs re-enters: `depth` bounds the nesting, past which Python would raise
-- `RecursionError`.
unfoldable pub finalize_from : ℕ → IpText → Action Vcn
unfolding assert_subnets
finalize_from zero ip v = (err recursion_error, v)
finalize_from (suc depth) ip v =
    let again = finalize_from depth ip in
    if v.security_lists_finalized
    then (ok tt, v)
    else (do seal ip; when v.args.flow_logs (attach_flow_logs again); assert_subnets) v

-- The nested call returns at once, since the flag is set before: two levels are enough.
unfoldable pub finalize_network : IpText → Action Vcn
unfolding finalize_from
finalize_network = finalize_from 2
