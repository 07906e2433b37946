-- ===== src/Spells/Bastion.antt =====
-- bastion.py: `Bastion`.
use cloudspells.Common.{ℕ, Option, none, some, List, [], ◌∷◌, if◌then◌else◌}
use cloudspells.Common.Text.{Text, codes}
use cloudspells.Exec.{Exec, Action, ok, err, value_error, runtime_error, raise, pure, ◌>>=◌, ◌>>◌}
use cloudspells.IpNetwork.{IpText}
use cloudspells.Naming.{ResourceNamer, create_resource_name}
use cloudspells.Roles.{private}
use cloudspells.Rules.{internet}
use cloudspells.Vcn.Defs.{Vcn, has_ambient_rule, add_unique_security_list_rules}
use cloudspells.Nsg.Roles.{ingress_for}
use cloudspells.Spells.Site.{Site, on_own, site_finalize_network, get_subnet_id, ask, tcp_from}

pub record BastionArgs : Type 0 where
  pub namer : ResourceNamer
  pub allowed_client_cidrs : Option (List Text)

pub record Bastion : Type 0 where
  pub name : Text
  pub bastion_type : Text
  pub target_subnet_id : Text
  pub max_session_ttl_in_seconds : ℕ
  pub client_cidr_block_allow_lists : List Text

-- `_BASTION_SSH_RULE_FINGERPRINT`
unfoldable pub bastion_fingerprint : Text
bastion_fingerprint = codes "bastion-private-ingress-tcp-22"

unfoldable pub bastion_security_rules : Action Vcn
bastion_security_rules = add_unique_security_list_rules bastion_fingerprint (
    ingress_for private (
      tcp_from internet 22 22
        (codes "SSH access from OCI Bastion service to private subnet instances")
      ∷ []))

-- A network that is finalized must have the rule, and one that is open gets it.
unfoldable pub ensure_bastion_rule : Action Vcn
unfolding bastion_security_rules
ensure_bastion_rule v =
    if v.security_lists_finalized
    then (if has_ambient_rule v bastion_fingerprint then ok tt else err runtime_error, v)
    else bastion_security_rules v

abbrev pub given_cidrs : Option (List Text) → Exec Site (List Text)
given_cidrs none = raise value_error
given_cidrs (some cidrs) = pure cidrs

-- `Bastion(…)`
unfoldable pub new_bastion : IpText → BastionArgs → Exec Site Bastion
unfolding ensure_bastion_rule
new_bastion ip a = do
  cidrs ← given_cidrs a.allowed_client_cidrs
  on_own ensure_bastion_rule
  site_finalize_network ip
  subnet_id ← ask (get_subnet_id private)
  pure (record {
    name = create_resource_name a.namer (codes "bastion");
    bastion_type = codes "STANDARD";
    target_subnet_id = subnet_id;
    max_session_ttl_in_seconds = 10800;
    client_cidr_block_allow_lists = cidrs;
  })
