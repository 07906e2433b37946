-- ===== src/Nsg/Defs.antt =====
-- The rules of one group: `Nsg.add_rule` and the `allow_*` helpers.
use cloudspells.Common.{ℕ, ◌+◌, Bool, false, Option, none, some, List, [], ◌∷◌, ◌++◌, if◌then◌else◌}
use cloudspells.Common.Text.{Text, codes, contains, or_text}
use cloudspells.Common.Decimal.{str}
use cloudspells.Common.Int.{ℤ, int_str}
use cloudspells.Exec.{Action, ok, err, value_error}
use cloudspells.Naming.{ResourceNamer, create_resource_name, ordinal_suffix}
use cloudspells.Roles.{RoleObject}
use cloudspells.Rules.{
  AddressType, cidr_block, service_cidr_block, network_security_group, PortRange, IcmpOptions,
}
use cloudspells.VcnRef.{VcnRef}

-- The network that a group belongs to: a VCN of this program, by its key, or an imported one.
pub data Network : Type 0 where
  live : ℕ → Network
  imported : VcnRef → Network

pub data Direction : Type 0 where
  ingress egress : Direction

-- The other end of a rule: a CIDR, or the id of a group, by its key.
pub data Peer : Type 0 where
  cidr : Text → Peer
  group : ℕ → Peer

-- The resource `NetworkSecurityGroupSecurityRule`.
pub record NsgRule : Type 0 where
  pub resource_name : Text
  pub legacy_rule_name : Text
  pub direction : Direction
  pub protocol : Text
  pub source : Option Peer
  pub source_type : Option AddressType
  pub destination : Option Peer
  pub destination_type : Option AddressType
  pub tcp_options : Option PortRange
  pub udp_options : Option PortRange
  pub icmp_options : Option IcmpOptions
  pub stateless : Bool
  pub description : Text

-- The arguments of `add_rule` behind the label.
pub record RuleArgs : Type 0 where
  pub direction : Direction
  pub protocol : Text
  pub source : Option Peer
  pub source_type : Option AddressType
  pub destination : Option Peer
  pub destination_type : Option AddressType
  pub tcp_options : Option PortRange
  pub udp_options : Option PortRange
  pub icmp_options : Option IcmpOptions
  pub description : Text

-- `rules` holds the rule resources that the group has declared, in order.
pub record Nsg : Type 0 where
  pub stack_name : Text
  pub name : Text
  pub network : Network
  pub role : Option RoleObject
  pub rule_labels : List Text
  pub next_rule_index : ℕ
  pub rules : List NsgRule

abbrev pub tcp : Text
tcp = codes "6"

abbrev pub icmp : Text
icmp = codes "1"

abbrev pub all_protocols : Text
all_protocols = codes "all"

unfoldable pub tcp_port : ℕ → PortRange
tcp_port port = record { min = port; max = port }

unfoldable pub tcp_port_range : ℕ → ℕ → PortRange
tcp_port_range min_port max_port = record { min = min_port; max = max_port }

unfoldable pub udp_port : ℕ → PortRange
udp_port port = record { min = port; max = port }

unfoldable pub udp_port_range : ℕ → ℕ → PortRange
udp_port_range min_port max_port = record { min = min_port; max = max_port }

unfoldable pub icmp_opts : ℕ → ℤ → IcmpOptions
icmp_opts icmp_type code = record { type = icmp_type; code = some code }

abbrev pub rule_namer : Nsg → ResourceNamer
rule_namer g = record { stack_name = g.stack_name; resource_name = g.name }

unfoldable pub rule_name : Nsg → ℕ → Text
rule_name g index = create_resource_name (rule_namer g) (ordinal_suffix (codes "nsg-rule") index)

unfoldable pub legacy_name : Nsg → Text → Text
legacy_name g label = g.stack_name ++ (codes "-" ++ (g.name ++ (codes "-nsg-rule-" ++ label)))

unfoldable pub new_rule : Nsg → Text → RuleArgs → NsgRule
new_rule g label a = record {
  resource_name = rule_name g g.next_rule_index;
  legacy_rule_name = legacy_name g label;
  direction = a.direction;
  protocol = a.protocol;
  source = a.source;
  source_type = a.source_type;
  destination = a.destination;
  destination_type = a.destination_type;
  tcp_options = a.tcp_options;
  udp_options = a.udp_options;
  icmp_options = a.icmp_options;
  stateless = false;
  description = or_text a.description label;
}

unfoldable pub add_rule : Text → RuleArgs → Action Nsg
add_rule label a g = if contains g.rule_labels label then (err value_error, g) else (
  ok tt,
  record g {
    rule_labels = label ∷ g.rule_labels;
    next_rule_index = g.next_rule_index + 1;
    rules = g.rules ++ (new_rule g label a ∷ []);
  },
)

-- A rule that lets traffic in, or out, with nothing else set.
abbrev from : Text → Peer → AddressType → RuleArgs
from protocol peer type = record {
  direction = ingress;
  protocol = protocol;
  source = some peer;
  source_type = some type;
  destination = none;
  destination_type = none;
  tcp_options = none;
  udp_options = none;
  icmp_options = none;
  description = [];
}

abbrev to : Text → Peer → AddressType → RuleArgs
to protocol peer type = record {
  direction = egress;
  protocol = protocol;
  source = none;
  source_type = none;
  destination = some peer;
  destination_type = some type;
  tcp_options = none;
  udp_options = none;
  icmp_options = none;
  description = [];
}

-- The arguments that each helper passes to `add_rule`.
unfoldable pub from_cidr : ℕ → Text → Text → RuleArgs
from_cidr port source description = record (from tcp (cidr source) cidr_block) {
  tcp_options = some (tcp_port port);
  description = or_text description (codes "TCP " ++ (str port ++ (codes " from " ++ source)));
}

unfoldable pub from_nsg : ℕ → ℕ → Text → RuleArgs
from_nsg source port description = record (from tcp (group source) network_security_group) {
  tcp_options = some (tcp_port port);
  description = or_text description (codes "TCP " ++ (str port ++ codes " from NSG"));
}

unfoldable pub to_nsg : ℕ → ℕ → Text → RuleArgs
to_nsg destination port description = record (to tcp (group destination) network_security_group) {
  tcp_options = some (tcp_port port);
  description = or_text description (codes "TCP " ++ (str port ++ codes " to NSG"));
}

unfoldable pub to_services : Text → Text → RuleArgs
to_services svc_cidr description = record (to all_protocols (cidr svc_cidr) service_cidr_block) {
  description = or_text description (codes "All traffic to Oracle Services");
}

unfoldable pub to_cidr : Text → Text → RuleArgs
to_cidr destination description = record (to all_protocols (cidr destination) cidr_block) {
  description = or_text description (codes "All traffic to " ++ destination);
}

unfoldable pub icmp_from_cidr : Text → ℕ → ℤ → Text → RuleArgs
icmp_from_cidr source icmp_type code description = record (from icmp (cidr source) cidr_block) {
  icmp_options = some (icmp_opts icmp_type code);
  description = or_text description (
      codes "ICMP type "
      ++ (str icmp_type ++ (codes " code " ++ (int_str code ++ (codes " from " ++ source)))));
}

unfoldable pub allow_from_cidr : Text → ℕ → Text → Text → Action Nsg
unfolding add_rule from_cidr
allow_from_cidr label port source description = add_rule label (from_cidr port source description)

unfoldable pub allow_from_nsg : Text → ℕ → ℕ → Text → Action Nsg
unfolding add_rule from_nsg
allow_from_nsg label source port description = add_rule label (from_nsg source port description)

unfoldable pub allow_to_nsg : Text → ℕ → ℕ → Text → Action Nsg
unfolding add_rule to_nsg
allow_to_nsg label destination port description =
    add_rule label (to_nsg destination port description)

unfoldable pub allow_to_services : Text → Text → Text → Action Nsg
unfolding add_rule to_services
allow_to_services label svc_cidr description = add_rule label (to_services svc_cidr description)

unfoldable pub allow_to_cidr : Text → Text → Text → Action Nsg
unfolding add_rule to_cidr
allow_to_cidr label destination description = add_rule label (to_cidr destination description)

unfoldable pub allow_icmp_from_cidr : Text → Text → ℕ → ℤ → Text → Action Nsg
unfolding add_rule icmp_from_cidr
allow_icmp_from_cidr label source icmp_type code description =
    add_rule label (icmp_from_cidr source icmp_type code description)
