-- ===== src/Tests/Networks.antt =====
-- A live network with flow logs and a DRG, before and after it is finalized.
use cloudspells.Vcn.Addresses.{network_of, IsNetwork, new_vcn-tiles, new_vcn_too_small}
use cloudspells.Vcn.Defs.{subnet_cidr}
use cloudspells.Common.{
  ℕ, ◌/◌, ◌%◌, ◌<◌, ◌≡◌, ◌≢◌, ◌↔◌, refl, true, false, some, [], ◌∷◌, ◌++◌, if◌then◌else◌, arith,
  inl,
}
use cloudspells.Common.Text.{Text, codes, text_eq, contains}
use cloudspells.Common.Decimal.{str, digits}
use cloudspells.Exec.{index_error, recursion_error, ok, err, value_error, runtime_error}
use cloudspells.IpNetwork.{IpText, tally, subnets, range_networks}
use cloudspells.Subnets.{TierNetworks, split_networks, SubnetCidrs, split_tiers}
use cloudspells.Subnets.Tiers.{tier_list}
use cloudspells.Roles.{SubnetTier, secure, at_tier}
use cloudspells.Rules.{
  SlRules, SecurityRules, SlIngress, SlEgress, no_rules, extend, sl_ingress_tcp,
}
use cloudspells.Vcn.Defs.{
  Vcn, VcnArgs, drg, new_vcn, initial_vcn, create_route_tables, add_unique_security_list_rules,
  has_ambient_rule, Subnet,
}
use cloudspells.Vcn.Routes.{leads_to, reachable, create_route_tables-reachable}
use cloudspells.Vcn.Finalize.{finalize_from, finalize_network, baseline}
use cloudspells.Vcn.FlowLogs.{valid_retention}
use cloudspells.Vcn.Export.{Outputs, export, lookup, IsImport, export-IsImport}
use cloudspells.Vcn.Lifecycle.{IsWired, finalize_outcome, finalize_network-IsWired}
use cloudspells.Vcn.Collect.{
  add, add_unique, finalize, calls, IsConsistent, add_unique_lost, calls-IsConsistent,
}
use cloudspells.Vcn.Depth.{finalize_network-ends}
use cloudspells.Vcn.Ledger.{entered, finalizes, calls-entered}
use cloudspells.VcnRef.{from_stack_reference, VcnRef}
use cloudspells.Tests.Addresses.{net}

-- IPv4 addresses in dotted decimals.
abbrev dotted : ℕ → Text
dotted a =
    let part = λ (unit : ℕ). str (a / unit % 256) in
    part 16777216
    ++ (codes "." ++ (part 65536 ++ (codes "." ++ (part 256 ++ (codes "." ++ part 1)))))

-- The texts that the examples need.
abbrev pub ip_text : IpText
ip_text = record {
  ip_network = λ t. if text_eq t (codes "10.0.0.0/18") then ok net else err value_error;
  to_text = λ n. dotted n.network_address ++ (codes "/" ++ str n.prefixlen);
}

abbrev pub lab : VcnArgs
lab = record {
  name = codes "lab";
  stack_name = codes "prod";
  compartment_id = some (codes "ocid1.compartment");
  cidr_block = codes "10.0.0.0/18";
  ipv6_enabled = false;
  flow_logs = true;
  flow_logs_retention = 90;
  drg = true;
  on_premise_cidrs = codes "192.168.0.0/16" ∷ [];
  svc_cidr_block = codes "all-fra-services";
  ipv6cidr_blocks = [];
}

abbrev lab_cidrs : SubnetCidrs
lab_cidrs = record {
  public = codes "p";
  private = codes "q";
  secure = codes "r";
  management = codes "s";
}

abbrev pub lab_vcn : Vcn
lab_vcn = initial_vcn lab (codes "10.0.0.0/18") lab_cidrs

abbrev pub web_rules : SlRules
web_rules = record (no_rules {I = SlIngress} {E = SlEgress}) {
  public_ingress = sl_ingress_tcp 443 (codes "0.0.0.0/0") (codes "TCP 443 from internet") ∷ [];
}

abbrev no_security_rules : SecurityRules
no_security_rules = no_rules

abbrev closed_vcn : Vcn
closed_vcn = record lab_vcn { security_lists_finalized = true }

abbrev pub web : Text
web = codes "public-ingress-tcp-443"

finalize_network-IsWired_example :
    ((finalize_network ip_text lab_vcn).0 ≡ finalize_outcome lab_vcn.args)
    × ((finalize_network ip_text lab_vcn).1.security_lists_finalized ≡ true)
    × ((finalize_network ip_text lab_vcn).1.rules
        ≡ extend lab_vcn.rules (baseline lab_vcn.args.svc_cidr_block))
    × ((tier : SubnetTier)
        → (subnet : Subnet) × (at_tier (finalize_network ip_text lab_vcn).1.subnets tier
            ≡ some subnet)
          × IsWired (finalize_network ip_text lab_vcn).1 tier subnet)
unfolding initial_vcn
finalize_network-IsWired_example = finalize_network-IsWired ip_text lab_vcn refl

add_unique_lost_example :
    let (r, w) = add_unique_security_list_rules web web_rules closed_vcn in
    let (r', w') = add_unique_security_list_rules web web_rules w in
    (r ≡ err runtime_error) × (r' ≡ ok tt) × (w'.rules ≡ closed_vcn.rules)
unfolding initial_vcn has_ambient_rule contains
add_unique_lost_example = add_unique_lost web web_rules closed_vcn refl refl

-- What the constructor makes of the address block.
abbrev pub made_cidrs : SubnetCidrs
made_cidrs = record {
  public = codes "10.0.48.0/21";
  private = codes "10.0.0.0/19";
  secure = codes "10.0.32.0/20";
  management = codes "10.0.56.0/21";
}

pub made : new_vcn ip_text lab ≡ ok (initial_vcn lab (codes "10.0.0.0/18") made_cidrs)
unfolding new_vcn split_tiers split_networks subnets range_networks text_eq codes str digits
made = refl

calls-IsConsistent_example : IsConsistent (
    calls ip_text
      (add_unique web web_rules ∷ finalize ∷ add web_rules ∷ [])
      (initial_vcn lab (codes "10.0.0.0/18") made_cidrs))
calls-IsConsistent_example =
    calls-IsConsistent ip_text lab (add_unique web web_rules ∷ finalize ∷ add web_rules ∷ []) made

create_route_tables-reachable_example :
    leads_to drg (at_tier (create_route_tables lab) secure).route_rules ≡ reachable lab secure drg
create_route_tables-reachable_example = create_route_tables-reachable lab secure drg

-- Ids of resources.
abbrev ids : Text → Text
ids name = codes "ocid1." ++ name

export-IsImport_example :
    (outputs : Outputs) × ((export ip_text ids lab_vcn).0 ≡ ok outputs)
    × (ref : VcnRef) × (from_stack_reference (lookup outputs) ≡ some ref)
    × IsImport ids lab_vcn ref
unfolding initial_vcn valid_retention
export-IsImport_example = export-IsImport lookup (λ outputs key. refl) ip_text ids lab_vcn refl refl

-- Networks as texts of three numbers.
abbrev codec : IpText
codec = record {
  ip_network = λ t. elim t [
    | bits ∷ address ∷ prefix ∷ [] ↦
        ok (record { max_prefixlen = bits; network_address = address; prefixlen = prefix })
    | _ ↦ err value_error
  ];
  to_text = λ n. n.max_prefixlen ∷ n.network_address ∷ n.prefixlen ∷ [];
}

abbrev coded_lab : VcnArgs
coded_lab = record lab { cidr_block = codec.to_text net }

net-IsNetwork : IsNetwork net
net-IsNetwork = record {
  version = inl refl;
  prefix_fits = omega arith;
  index = 10240;
  no_host_bits = refl;
  in_range = omega arith;
}

new_vcn-tiles_example :
    (v : Vcn) × (new_vcn codec coded_lab ≡ ok v)
    × (t : TierNetworks) × ((tier : SubnetTier)
        → (codec.ip_network (subnet_cidr v tier) ≡ ok (network_of t tier))
          × IsNetwork (network_of t tier))
    × ((x : ℕ) → tally x (tier_list t) ≡ tally x (net ∷ []))
new_vcn-tiles_example =
    new_vcn-tiles codec (λ n valid. refl) coded_lab net refl net-IsNetwork (omega arith)

-- 10.0.0.0/30
abbrev tiny_lab : VcnArgs
tiny_lab = record lab { cidr_block = codec.to_text (record net { prefixlen = 30 }) }

new_vcn_too_small_example : (new_vcn codec tiny_lab ≡ err index_error) ↔ (32 < 33)
new_vcn_too_small_example =
    new_vcn_too_small codec tiny_lab (record net { prefixlen = 30 }) refl (omega arith)

finalize_network-ends_example :
    (finalize_from 4 ip_text lab_vcn ≡ finalize_network ip_text lab_vcn)
    × ((finalize_network ip_text lab_vcn).0 ≢ err recursion_error)
finalize_network-ends_example = finalize_network-ends 2 ip_text lab_vcn

calls-entered_example :
    let cs = add_unique web web_rules ∷ finalize ∷ add web_rules ∷ [] in
    ((calls ip_text cs lab_vcn).rules
      ≡ extend lab_vcn.rules
          (entered lab_vcn.args.svc_cidr_block lab_vcn.applied_ambient_rule_fingerprints cs))
    × ((calls ip_text cs lab_vcn).security_lists_finalized ≡ finalizes cs)
unfolding initial_vcn
calls-entered_example =
    calls-entered ip_text (add_unique web web_rules ∷ finalize ∷ add web_rules ∷ []) lab_vcn refl
