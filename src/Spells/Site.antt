-- ===== src/Spells/Site.antt =====
-- The network that a spell is given: a `Vcn` or a `VcnRef`, and the calls that work on both.
use cloudspells.Common.{ℕ, Option, none, some}
use cloudspells.Common.Text.{Text, codes}
use cloudspells.Exec.{Exec, Action, Result, ok, err, runtime_error}
use cloudspells.IpNetwork.{IpText}
use cloudspells.Roles.{SubnetTier, public, private, secure, management, at_tier}
use cloudspells.Rules.{SlIngress, SlEgress, SlRules, cidr_block}
use cloudspells.Vcn.Defs.{Vcn, subnet_cidr, subnet_id, add_security_list_rules}
use cloudspells.Vcn.Finalize.{finalize_network}
use cloudspells.VcnRef.{
  VcnRef, ref_add_security_list_rules, ref_get_secure_subnet_id, ref_get_management_subnet_id,
}

pub data Site : Type 0 where
  vcn : Vcn → Site
  vcn_ref : VcnRef → Site

-- A method of `Vcn`, on the network.
unfoldable pub on_own : Action Vcn → Action Site
on_own m (vcn v) = let (r, w) = m v in (r, vcn w)
on_own m (vcn_ref ref) = (ok tt, vcn_ref ref)

-- `vcn.finalize_network()`: nothing is left to do for a `VcnRef`.
unfoldable pub site_finalize_network : IpText → Action Site
unfolding on_own
site_finalize_network ip = on_own (finalize_network ip)

-- `vcn.add_security_list_rules(…)`
unfoldable pub site_add_security_list_rules : SlRules → Action Site
unfolding on_own
site_add_security_list_rules added (vcn v) = on_own (add_security_list_rules added) (vcn v)
site_add_security_list_rules added (vcn_ref ref) =
    (ref_add_security_list_rules ref added, vcn_ref ref)

-- `vcn.get_…_subnet_id()`
unfoldable pub get_subnet_id : SubnetTier → Site → Result Text
get_subnet_id tier (vcn v) = subnet_id v tier
get_subnet_id public (vcn_ref ref) = ok ref.public_subnet
get_subnet_id private (vcn_ref ref) = ok ref.private_subnet
get_subnet_id secure (vcn_ref ref) = ref_get_secure_subnet_id ref
get_subnet_id management (vcn_ref ref) = ref_get_management_subnet_id ref

-- `vcn.get_public_subnet_cidr()` and `vcn.get_private_subnet_cidr()`
unfoldable pub public_subnet_cidr : Site → Text
public_subnet_cidr (vcn v) = subnet_cidr v public
public_subnet_cidr (vcn_ref ref) = ref.public_subnet_cidr

unfoldable pub private_subnet_cidr : Site → Text
private_subnet_cidr (vcn v) = subnet_cidr v private
private_subnet_cidr (vcn_ref ref) = ref.private_subnet_cidr

-- `vcn.…_subnet` where it is there: for a `VcnRef`, the id of the subnet.
unfoldable pub subnet_of : SubnetTier → Site → Option Text
subnet_of tier (vcn v) = elim (at_tier v.subnets tier) [
  | none ↦ none
  | some s ↦ some s.display_name
]
subnet_of public (vcn_ref ref) = some ref.public_subnet
subnet_of private (vcn_ref ref) = some ref.private_subnet
subnet_of secure (vcn_ref ref) = ref.secure_subnet
subnet_of management (vcn_ref ref) = ref.management_subnet

-- A result that depends on the network and leaves it.
abbrev pub ask : {A : Type 0} → (Site → Result A) → Exec Site A
ask f s = (f s, s)

-- The check that the subnet of a tier is there.
abbrev pub there : SubnetTier → Exec Site Text
there tier = ask λ s. elim (subnet_of tier s) [ none ↦ err runtime_error | some id ↦ ok id ]

-- TCP rules of security lists, with all that the spells set.
unfoldable pub tcp_from : Text → ℕ → ℕ → Text → SlIngress
tcp_from source min max description = record {
  protocol = codes "6";
  source = source;
  source_type = cidr_block;
  tcp_options = some (record { min = min; max = max });
  icmp_options = none;
  description = description;
}

unfoldable pub tcp_to : Text → ℕ → ℕ → Text → SlEgress
tcp_to destination min max description = record {
  protocol = codes "6";
  destination = destination;
  destination_type = cidr_block;
  tcp_options = some (record { min = min; max = max });
  description = description;
}
