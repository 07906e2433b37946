-- ===== src/Vcn/Lifecycle.antt =====
-- The life of a VCN: rules are collected until it is finalized, then frozen.
use cloudspells.Common.{
  ◌≡◌, refl, Bool, true, false, not, Option, none, some, ℕ, suc, arith, ◌∙◌, if◌then◌else◌,
  Bool-cases, inl, inr, Option-cases,
}
use cloudspells.Common.Text.{Text, codes}
use cloudspells.Exec.{Action, Result, ok, err, runtime_error, value_error, ◌>>◌, when}
use cloudspells.IpNetwork.{IpText}
use cloudspells.Naming.{create_resource_name}
use cloudspells.Roles.{SubnetTier, public, private, secure, management, at_tier}
use cloudspells.Rules.{SlRules, SecurityRules, extend, ingress_of, egress_of}
use cloudspells.Vcn.Defs.{
  Vcn, Subnet, VcnFlowLogs, VcnArgs, subnet_cidr, add_security_list_rules,
  add_unique_security_list_rules, add_security_rules,
}
use cloudspells.Vcn.FlowLogs.{valid_retention, new_flow_logs, flow_log, group_name}
use cloudspells.Vcn.Finalize.{
  baseline, is_public_tier, security_lists_of, create_subnet, seal, attach_flow_logs, finalize_from,
  finalize_network, flow_logs_args, assert_subnets,
}

-- What the subnet of a tier is made of in a network that is finalized.
pub record IsWired (v : Vcn) (tier : SubnetTier) (subnet : Subnet) : Type 0 where
  pub own_cidr : subnet.cidr ≡ subnet_cidr v tier
  pub own_ingress : subnet.security_list.ingress_security_rules ≡ ingress_of v.rules tier
  pub own_egress : subnet.security_list.egress_security_rules ≡ egress_of v.rules tier
  pub own_routes : subnet.route_table ≡ at_tier v.route_tables tier
  pub closed_unless_public : subnet.prohibit_public_ip_on_vnic ≡ not (is_public_tier tier)

-- The steps of `finalize_network` up to the flag, in a network that is not finalized.
unfoldable pub sealed : IpText → Vcn → Vcn
sealed ip v =
    let rules = extend v.rules (baseline v.args.svc_cidr_block) in
    let w = record v { rules = rules } in
    let lists = security_lists_of w in
    record v {
      rules = rules;
      security_lists_finalized = true;
      security_lists = record {
        at_public = some lists.at_public;
        at_private = some lists.at_private;
        at_secure = some lists.at_secure;
        at_management = some lists.at_management;
      };
      subnets = record {
        at_public = some (create_subnet ip w public lists.at_public);
        at_private = some (create_subnet ip w private lists.at_private);
        at_secure = some (create_subnet ip w secure lists.at_secure);
        at_management = some (create_subnet ip w management lists.at_management);
      };
    }

abbrev pub rest_of_finalize : Action Vcn → Bool → Action Vcn
rest_of_finalize again logs = do when logs (attach_flow_logs again); assert_subnets

seal-sealed :
    (ip : IpText) (v : Vcn) → v.security_lists_finalized ≡ false → seal ip v ≡ (ok tt, sealed ip v)
unfolding seal sealed create_subnet
seal-sealed ip v h = rw h

pub finalize_from_open :
    (depth : ℕ) (ip : IpText) (v : Vcn)
    → v.security_lists_finalized ≡ false
    → finalize_from (suc depth) ip v
      ≡ rest_of_finalize (finalize_from depth ip) v.args.flow_logs (sealed ip v)
unfolding finalize_from
finalize_from_open depth ip v h = rw (seal-sealed ip v h) (rw h)

pub finalize_from_sealed :
    (depth : ℕ) (ip : IpText) (v : Vcn)
    → v.security_lists_finalized ≡ true
    → finalize_from (suc depth) ip v ≡ (ok tt, v)
unfolding finalize_from
finalize_from_sealed depth ip v h = rw h

-- How the call ends: the flow logs need a compartment and one of the retention periods.
abbrev pub finalize_outcome : VcnArgs → Result (Unit {0})
finalize_outcome a =
    if a.flow_logs
    then elim a.compartment_id [
      | none ↦ err runtime_error
      | some compartment ↦ if valid_retention a.flow_logs_retention then ok tt else err value_error
    ]
    else ok tt

-- The logs of a network that is finalized, one for each subnet.
unfoldable pub sealed_logs : IpText → Vcn → VcnFlowLogs
sealed_logs ip v =
    let a = flow_logs_args v in
    let w = record v { rules = extend v.rules (baseline v.args.svc_cidr_block) } in
    let lists = security_lists_of w in
    record {
      log_group = group_name a;
      public_flow_log =
          flow_log a public (codes "flow-log-public") (create_subnet ip w public lists.at_public);
      private_flow_log =
          flow_log a private (codes "flow-log-private")
            (create_subnet ip w private lists.at_private);
      secure_flow_log =
          some (
            flow_log a secure (codes "flow-log-secure")
              (create_subnet ip w secure lists.at_secure));
      management_flow_log = some (
          flow_log a management (codes "flow-log-management")
            (create_subnet ip w management lists.at_management));
    }

unfoldable pub attached : IpText → Vcn → Option VcnFlowLogs
attached ip v = elim v.args.compartment_id [
  | none ↦ v.flow_logs
  | some compartment ↦
      if valid_retention v.args.flow_logs_retention then some (sealed_logs ip v) else v.flow_logs
]

pub rest_with_logs :
    (depth : ℕ) (ip : IpText) (v : Vcn)
    → v.args.flow_logs ≡ true
    → rest_of_finalize (finalize_from (suc depth) ip) v.args.flow_logs (sealed ip v)
      ≡ (finalize_outcome v.args, record (sealed ip v) { flow_logs = attached ip v })
unfolding sealed attach_flow_logs new_flow_logs assert_subnets attached sealed_logs finalize_from
    baseline security_lists_of create_subnet create_resource_name flow_log
rest_with_logs depth ip v on = elim (Option-cases v.args.compartment_id) [
  | inl without ↦ rw (on, without)
  | inr (c, e) ↦ elim (Bool-cases (valid_retention v.args.flow_logs_retention)) [
    | inl good ↦ rw (on, e, good)
    | inr bad ↦ rw (on, e, bad)
  ]
]

-- Up to the attribute for the flow logs, the network is `sealed`, whether the call raises or not.
pub finalize_network_open :
    (ip : IpText) (v : Vcn)
    → v.security_lists_finalized ≡ false
    → (logs : Option VcnFlowLogs) × (finalize_network ip v
        ≡ (finalize_outcome v.args, record (sealed ip v) { flow_logs = logs }))
unfolding finalize_network
finalize_network_open ip v h = elim (Bool-cases v.args.flow_logs) [
  | inr off ↦ (v.flow_logs, finalize_from_open 1 ip v h ∙ unfold sealed assert_subnets in rw off)
  | inl on ↦ (attached ip v, finalize_from_open 1 ip v h ∙ rest_with_logs 0 ip v on)
]

sealed-IsWired :
    (ip : IpText) (v : Vcn) (logs : Option VcnFlowLogs) (tier : SubnetTier)
    → (subnet : Subnet) × (at_tier (sealed ip v).subnets tier ≡ some subnet)
      × IsWired (record (sealed ip v) { flow_logs = logs }) tier subnet
unfolding sealed create_subnet security_lists_of
sealed-IsWired ip v logs public = (
  _,
  refl,
  record {
    own_cidr = refl;
    own_ingress = refl;
    own_egress = refl;
    own_routes = refl;
    closed_unless_public = refl;
  },
)
sealed-IsWired ip v logs _ = (
  _,
  refl,
  record {
    own_cidr = refl;
    own_ingress = refl;
    own_egress = refl;
    own_routes = refl;
    closed_unless_public = refl;
  },
)

-- Finalizing an open network freezes it: the flag is set, and each tier's subnet has its own
-- address range, its own route table, and all rules collected for it with the baseline behind
-- them. Public addresses are possible on the public tier alone. This holds also where the call
-- raises for the sake of the flow logs, and `finalize_outcome` says when it does.
pub finalize_network-IsWired :
    (ip : IpText) (v : Vcn)
    → v.security_lists_finalized ≡ false
    → ((finalize_network ip v).0 ≡ finalize_outcome v.args)
      × ((finalize_network ip v).1.security_lists_finalized ≡ true)
      × ((finalize_network ip v).1.rules ≡ extend v.rules (baseline v.args.svc_cidr_block))
      × ((tier : SubnetTier)
          → (subnet : Subnet) × (at_tier (finalize_network ip v).1.subnets tier ≡ some subnet)
            × IsWired (finalize_network ip v).1 tier subnet)
finalize_network-IsWired ip v h =
    let (logs, e) = finalize_network_open ip v h in
    rw e (refl, unfold sealed in refl, unfold sealed in refl, sealed-IsWired ip v logs)

-- A network that is finalized stays as it is: the call returns and changes nothing, and adding
-- rules raises `RuntimeError` and changes no rule and no subnet.
pub finalized_is_frozen :
    (ip : IpText) (v : Vcn) (fingerprint : Text) (added : SlRules) (declared : SecurityRules)
    → v.security_lists_finalized ≡ true
    → (finalize_network ip v ≡ (ok tt, v))
      × (add_security_list_rules added v ≡ (err runtime_error, v))
      × (add_security_rules declared v ≡ (err runtime_error, v))
      × ((add_unique_security_list_rules fingerprint added v).1.rules ≡ v.rules)
unfolding finalize_network add_security_list_rules add_security_rules add_unique_security_list_rules
finalized_is_frozen ip v fingerprint added declared h =
    (finalize_from_sealed 1 ip v h, rw h, rw h, ground arith)
