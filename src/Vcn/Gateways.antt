-- ===== src/Vcn/Gateways.antt =====
-- `Vcn._create_vcn` and `Vcn._create_gateways`: the VCN itself, its default security list and its
-- gateways, with their tags.
use cloudspells.Common.{Bool, Option, none, some, List, [], ◌∷◌, if◌then◌else◌}
use cloudspells.Common.Text.{Text, codes}
use cloudspells.Naming.{create_resource_name, create_dns_label}
use cloudspells.Base.{spell_type_from_urn}
use cloudspells.Tagging.{
  Tags, ResourceTagger, create_freeform_tags, create_network_resource_tags, create_gateway_tags,
}
use cloudspells.Vcn.Defs.{VcnArgs, namer, vcn_block}

-- The arguments that only the resources below use.
pub record VcnOptions : Type 0 where
  pub additional_cidr_blocks : Option (List Text)
  pub nat_public_ip_id : Option Text
  pub nat_block_traffic : Bool
  pub svc_service_id : Text

pub record VcnResource : Type 0 where
  pub name : Text
  pub compartment_id : Option Text
  pub cidr_blocks : List Text
  pub is_ipv6enabled : Bool
  pub dns_label : Text
  pub freeform_tags : Tags

-- It has no rule.
pub record DefaultSecurityList : Type 0 where
  pub name : Text
  pub vcn : Text
  pub freeform_tags : Tags

pub record GatewayResource : Type 0 where
  pub name : Text
  pub freeform_tags : Tags

pub record Gateways : Type 0 where
  pub internet : GatewayResource
  pub nat : GatewayResource
  pub nat_block_traffic : Bool
  pub nat_public_ip_id : Option Text
  pub service : GatewayResource
  pub service_id : Text
  pub drg : Option GatewayResource
  pub drg_attachment : Option GatewayResource

unfoldable pub tagger : VcnArgs → ResourceTagger
tagger a = record {
  stack_name = a.stack_name;
  resource_name = a.name;
  spell_type = spell_type_from_urn (codes "custom:network:Vcn");
}

abbrev given_blocks : Option (List Text) → List Text
given_blocks none = []
given_blocks (some blocks) = blocks

unfoldable pub create_vcn : VcnOptions → VcnArgs → VcnResource
unfolding tagger
create_vcn o a =
    let name = create_resource_name (namer a) (codes "vcn") in
    record {
      name = name;
      compartment_id = a.compartment_id;
      cidr_blocks = vcn_block a ∷ given_blocks o.additional_cidr_blocks;
      is_ipv6enabled = a.ipv6_enabled;
      dns_label = create_dns_label (namer a) (codes "vcn");
      freeform_tags =
          create_freeform_tags (tagger a) name (codes "vcn")
            (some ((codes "NetworkTier", codes "core") ∷ []));
    }

unfoldable pub default_security_list : VcnArgs → DefaultSecurityList
unfolding tagger
default_security_list a =
    let name = create_resource_name (namer a) (codes "sl-default") in
    record {
      name = name;
      vcn = create_resource_name (namer a) (codes "vcn");
      freeform_tags =
          create_network_resource_tags (tagger a) name (codes "security-list") (codes "default")
            (some (codes "default")) none;
    }

unfoldable pub gateway_resource : VcnArgs → Text → Text → GatewayResource
unfolding tagger
gateway_resource a suffix gateway_type =
    let name = create_resource_name (namer a) suffix in
    record { name = name; freeform_tags = create_gateway_tags (tagger a) name gateway_type none }

abbrev if_enabled : {A : Type 0} → Bool → A → Option A
if_enabled enabled a = if enabled then some a else none

unfoldable pub create_gateways : VcnOptions → VcnArgs → Gateways
unfolding gateway_resource
create_gateways o a = record {
  internet = gateway_resource a (codes "igw") (codes "internet");
  nat = gateway_resource a (codes "natgw") (codes "nat");
  nat_block_traffic = o.nat_block_traffic;
  nat_public_ip_id = o.nat_public_ip_id;
  service = gateway_resource a (codes "svcgw") (codes "service");
  service_id = o.svc_service_id;
  drg = if_enabled a.drg (gateway_resource a (codes "drg") (codes "drg"));
  drg_attachment =
      if_enabled a.drg (gateway_resource a (codes "drg-attach") (codes "drg-attachment"));
}
