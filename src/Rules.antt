-- ===== src/Rules.antt =====
-- Security rules: the cloud-neutral ones of
-- packages/cloudspells-core/src/cloudspells/core/abstractions/network.py, the arguments of OCI
-- security lists, and the two ways from a flow to these: `_translate_*` of network.py and
-- `_sl_*` of nsg.py (packages/cloudspells-oci/src/cloudspells/providers/oci/).
pub mod Agree
use cloudspells.Common.{
  ℕ, Bool, Option, none, some, List, [], ◌∷◌, ◌++◌, ◌&&◌, ◌||◌, map, if◌then◌else◌,
}
use cloudspells.Common.Text.{Text, codes, text_eq, or_text}
use cloudspells.Common.Decimal.{str}
use cloudspells.Common.Int.{ℤ}
use cloudspells.Roles.{SubnetTier, public, private, secure, management}

unfoldable pub internet : Text
internet = codes "0.0.0.0/0"

unfoldable pub cloud_services : Text
cloud_services = codes "cloud-services"

-- `source_type` and `destination_type`.
pub data AddressType : Type 0 where
  cidr_block service_cidr_block network_security_group : AddressType

pub record PortRange : Type 0 where
  pub min : ℕ
  pub max : ℕ

pub record IcmpOptions : Type 0 where
  pub type : ℕ
  pub code : Option ℤ

pub record IngressRule : Type 0 where
  pub protocol : Text
  pub source : Text
  pub port_min : Option ℕ
  pub port_max : Option ℕ
  pub description : Text

pub record EgressRule : Type 0 where
  pub protocol : Text
  pub destination : Text
  pub port_min : Option ℕ
  pub port_max : Option ℕ
  pub description : Text

-- `SecurityListIngressSecurityRuleArgs` and its egress twin.
pub record SlIngress : Type 0 where
  pub protocol : Text
  pub source : Text
  pub source_type : AddressType
  pub tcp_options : Option PortRange
  pub icmp_options : Option IcmpOptions
  pub description : Text

pub record SlEgress : Type 0 where
  pub protocol : Text
  pub destination : Text
  pub destination_type : AddressType
  pub tcp_options : Option PortRange
  pub description : Text

-- Ingress and egress rules of each tier: `SecurityRules`, the keyword arguments of
-- `add_security_list_rules` (`None` there is an empty list here), and the lists that a VCN keeps.
pub record TierRules (I E : Type 0) : Type 0 where
  pub public_ingress : List I
  pub public_egress : List E
  pub private_ingress : List I
  pub private_egress : List E
  pub secure_ingress : List I
  pub secure_egress : List E
  pub management_ingress : List I
  pub management_egress : List E

abbrev pub SecurityRules : Type 0
SecurityRules = TierRules IngressRule EgressRule

abbrev pub SlRules : Type 0
SlRules = TierRules SlIngress SlEgress

abbrev pub no_rules : {I E : Type 0} → TierRules I E
no_rules = record {
  public_ingress = [];
  public_egress = [];
  private_ingress = [];
  private_egress = [];
  secure_ingress = [];
  secure_egress = [];
  management_ingress = [];
  management_egress = [];
}

-- The eight `extend` calls.
abbrev pub extend : {I E : Type 0} → TierRules I E → TierRules I E → TierRules I E
extend r s = record {
  public_ingress = r.public_ingress ++ s.public_ingress;
  public_egress = r.public_egress ++ s.public_egress;
  private_ingress = r.private_ingress ++ s.private_ingress;
  private_egress = r.private_egress ++ s.private_egress;
  secure_ingress = r.secure_ingress ++ s.secure_ingress;
  secure_egress = r.secure_egress ++ s.secure_egress;
  management_ingress = r.management_ingress ++ s.management_ingress;
  management_egress = r.management_egress ++ s.management_egress;
}

abbrev pub ingress_of : {I E : Type 0} → TierRules I E → SubnetTier → List I
ingress_of r public = r.public_ingress
ingress_of r private = r.private_ingress
ingress_of r secure = r.secure_ingress
ingress_of r management = r.management_ingress

abbrev pub egress_of : {I E : Type 0} → TierRules I E → SubnetTier → List E
egress_of r public = r.public_egress
egress_of r private = r.private_egress
egress_of r secure = r.secure_egress
egress_of r management = r.management_egress

-- The rule builders of the abstraction. A description that is empty gets a default.
unfoldable pub tcp_ingress : ℕ → Text → Text → IngressRule
tcp_ingress port source description = record {
  protocol = codes "tcp";
  source = source;
  port_min = some port;
  port_max = some port;
  description = or_text description (codes "TCP " ++ (str port ++ codes " ingress"));
}

unfoldable pub tcp_egress : ℕ → Text → Text → EgressRule
tcp_egress port destination description = record {
  protocol = codes "tcp";
  destination = destination;
  port_min = some port;
  port_max = some port;
  description = or_text description (codes "TCP " ++ (str port ++ codes " egress"));
}

unfoldable pub all_egress : Text → Text → EgressRule
all_egress destination description = record {
  protocol = codes "all";
  destination = destination;
  port_min = none;
  port_max = none;
  description = or_text description (codes "All traffic egress");
}

-- `_PROTOCOL_MAP.get(protocol, protocol)`
unfoldable pub protocol_number : Text → Text
protocol_number protocol =
    if text_eq protocol (codes "tcp")
    then codes "6"
    else if text_eq protocol (codes "udp")
    then codes "17"
    else if text_eq protocol (codes "icmp")
    then codes "1"
    else if text_eq protocol (codes "all")
    then codes "all"
    else protocol

abbrev given : Option ℕ → ℕ → ℕ
given none default = default
given (some n) default = n

abbrev port_options : Text → Option ℕ → Option ℕ → Option PortRange
port_options protocol none none = none
port_options protocol low high =
    if text_eq protocol (codes "tcp")
    then some (record { min = given low 1; max = given high 65535 })
    else none

abbrev or_internet : Text → Text
or_internet target = if text_eq target (codes "internet") then internet else target

unfoldable pub translate_ingress_rule : IngressRule → SlIngress
unfolding protocol_number
translate_ingress_rule rule = record {
  protocol = protocol_number rule.protocol;
  source = or_internet rule.source;
  source_type = cidr_block;
  tcp_options = port_options rule.protocol rule.port_min rule.port_max;
  icmp_options = none;
  description = rule.description;
}

unfoldable pub translate_egress_rule : EgressRule → Text → SlEgress
unfolding protocol_number
translate_egress_rule rule svc_cidr_block =
    let is_service = text_eq rule.destination cloud_services in
    record {
      protocol = protocol_number rule.protocol;
      destination = if is_service then svc_cidr_block else or_internet rule.destination;
      destination_type = if is_service then service_cidr_block else cidr_block;
      tcp_options = port_options rule.protocol rule.port_min rule.port_max;
      description = rule.description;
    }

unfoldable pub sl_ingress_tcp : ℕ → Text → Text → SlIngress
sl_ingress_tcp port source description = record {
  protocol = codes "6";
  source = source;
  source_type = cidr_block;
  tcp_options = some (record { min = port; max = port });
  icmp_options = none;
  description = or_text description (codes "TCP " ++ (str port ++ codes " ingress"));
}

unfoldable pub sl_egress_tcp : ℕ → Text → Text → SlEgress
sl_egress_tcp port destination description = record {
  protocol = codes "6";
  destination = destination;
  destination_type = cidr_block;
  tcp_options = some (record { min = port; max = port });
  description = or_text description (codes "TCP " ++ (str port ++ codes " egress"));
}

unfoldable pub sl_egress_all_services : Text → SlEgress
sl_egress_all_services svc_cidr = record {
  protocol = codes "all";
  destination = svc_cidr;
  destination_type = service_cidr_block;
  tcp_options = none;
  description = codes "All traffic to Oracle Services";
}

unfoldable pub sl_egress_all_internet : SlEgress
sl_egress_all_internet = record {
  protocol = codes "all";
  destination = internet;
  destination_type = cidr_block;
  tcp_options = none;
  description = codes "All outbound traffic via NAT Gateway";
}
