-- ===== src/Nsg/Everywhere.antt =====
-- A property of groups that `add_rule` keeps holds of every group after each operation.
use cloudspells.Common.{
  ℕ, ◌≡◌, ◌∙◌, ◌⊎◌, Bool, true, false, Option, none, some, List, [], ◌∷◌, ◌++◌, Bool-cases, inl,
  inr, ◌==◌,
}
use cloudspells.Common.Text.{Text, codes}
use cloudspells.Common.Decimal.{str}
use cloudspells.Exec.{Action, when, for_each, gets, ◌>>=◌, ◌>>◌}
use cloudspells.Exec.Keeps.{Keeps, Keeps-bind, Keeps-when, Keeps-if, Keeps-for_each}
use cloudspells.Roles.{
  Role, RoleObject, role_of, SubnetTier, public, private, secure, management, same_tier,
}
use cloudspells.Rules.{SlRules, internet, sl_egress_all_services, sl_egress_all_internet}
use cloudspells.Vcn.Defs.{Vcn, add_unique_security_list_rules}
use cloudspells.Nsg.Defs.{
  Nsg, RuleArgs, Network, live, imported, Peer, cidr, group, add_rule, to_nsg, from_nsg, from_cidr,
  to_services, to_cidr, allow_from_cidr, allow_to_services, allow_to_cidr,
}
use cloudspells.Nsg.Roles.{
  Cloud, on_nsg, on_vcn, connect, connect_tiers, serves, serves_tiers, sl_for_tier, cidr_for_tier,
  internet_ingress, internet_fingerprint, ambient_fingerprint, egress_for, ambient_nsg_rules,
  ambient_sl_rules, is_public, ssh, internet_label,
}
use cloudspells.Nsg.Grows.{Growing-on_nsg}
use cloudspells.Nsg.Serves.{call_out, call_in, connect-eq, serves-eq, needs_ssh}

abbrev pub NoCidr : Option Peer → Type 0
NoCidr none = Unit
NoCidr (some (group g)) = Unit
NoCidr (some (cidr text)) = ⊥

abbrev pub exposes : Option RoleObject → Bool
exposes none = false
exposes (some role) = is_public (role_of role).subnet_tier

-- A rule from outside needs a role of the public tier.
abbrev pub Fits : Option RoleObject → RuleArgs → Type 0
Fits role a = (exposes role ≡ true) ⊎ NoCidr a.source

-- All groups have the property, and the group at `self` has the role that it was made with.
pub record Inv (P : Nsg → Type 0) (self : ℕ) (role : Option RoleObject) (c : Cloud) : Type 0 where
  pub own_role : (c.nsgs self).role ≡ role
  pub everywhere : (j : ℕ) → P (c.nsgs j)

module _ (P : Nsg → Type 0)
    (keep : (label : Text) (a : RuleArgs) (g : Nsg)
      → Fits g.role a
      → P g
      → P (add_rule label a g).1)
    (self : ℕ) (role : Option RoleObject) where
  -- a rule that fits the role of its group
  Inv-on_nsg :
      (i : ℕ) (label : Text) (a : RuleArgs) (c : Cloud)
      → Fits (c.nsgs i).role a
      → Inv P self role c
      → Inv P self role (on_nsg i (add_rule label a) c).1
  unfolding on_nsg
  Inv-on_nsg i label a c new h = record {
    own_role = (Growing-on_nsg i label a c self).same_role ∙ h.own_role;
    everywhere = λ j. elim (Bool-cases (i == j)) [
      | inl same ↦ rw same (keep label a (c.nsgs i) new (h.everywhere i))
      | inr other ↦ rw other (h.everywhere j)
    ];
  }

  -- a rule with no CIDR for its source fits every role
  Inv-on_nsg_inner :
      (i : ℕ) (label : Text) (a : RuleArgs)
      → NoCidr a.source
      → Keeps (Inv P self role) (on_nsg i (add_rule label a))
  Inv-on_nsg_inner i label a inner c h = Inv-on_nsg i label a c (inr inner) h

  Inv-on_vcn : (i : ℕ) (m : Action Vcn) → Keeps (Inv P self role) (on_vcn i m)
  unfolding on_vcn
  Inv-on_vcn i m c h = record { own_role = h.own_role; everywhere = h.everywhere }

  Inv-sl_for_tier :
      (network : Network) (fingerprint : Text) (rules : SlRules)
      → Keeps (Inv P self role) (sl_for_tier network fingerprint rules)
  unfolding sl_for_tier
  Inv-sl_for_tier (imported ref) fingerprint rules c h = h
  Inv-sl_for_tier (live v) fingerprint rules c h =
      Inv-on_vcn v (add_unique_security_list_rules fingerprint rules) c h

  Inv-cidr_for_tier :
      (network : Network) (tier : SubnetTier) → Keeps (Inv P self role) (cidr_for_tier network tier)
  unfolding cidr_for_tier
  Inv-cidr_for_tier (live v) tier c h = h
  Inv-cidr_for_tier (imported ref) public c h = h
  Inv-cidr_for_tier (imported ref) private c h = h
  Inv-cidr_for_tier (imported ref) secure c h = h
  Inv-cidr_for_tier (imported ref) management c h = h

  pub Inv-ambient_sl_rules :
      (network : Network) (r : Role) (ports : List ℕ)
      → Keeps (Inv P self role) (ambient_sl_rules network r ports)
  unfolding ambient_sl_rules
  Inv-ambient_sl_rules network r ports =
      let K = Inv P self role in
      let place : Text → SlRules → Action Cloud =
        λ fingerprint rules. sl_for_tier network fingerprint rules in
      let open_port = λ (port : ℕ). place (internet_fingerprint port) (internet_ingress port) in
      let services = λ (svc_cidr : Text). when r.egress_services (
        place (ambient_fingerprint r.subnet_tier (codes "services"))
          (egress_for r.subnet_tier (sl_egress_all_services svc_cidr ∷ []))) in
      let out = when r.egress_internet (
        place (ambient_fingerprint r.subnet_tier (codes "internet"))
          (egress_for r.subnet_tier (sl_egress_all_internet ∷ []))) in
      Keeps-bind K (when (is_public r.subnet_tier) (for_each ports open_port))
        (λ _. gets (λ c. c.svc_cidr) >>= λ svc_cidr. services svc_cidr >> out)
        (Keeps-when K (is_public r.subnet_tier) (for_each ports open_port)
          (λ _. Keeps-for_each K ports open_port (λ port. Inv-sl_for_tier network _ _)))
        (λ _ c h.
          Keeps-bind K (services c.svc_cidr) (λ _. out)
            (Keeps-when K r.egress_services _ (λ _. Inv-sl_for_tier network _ _))
            (λ _. Keeps-when K r.egress_internet _ (λ _. Inv-sl_for_tier network _ _)) c h)

  -- a group of this role may be reached from outside only in the public tier
  Inv-open_port :
      (port : ℕ)
      → exposes role ≡ true
      → Keeps
          (Inv P self role)
          (on_nsg self (allow_from_cidr (internet_label port) port internet []))
  unfolding allow_from_cidr
  Inv-open_port port e c h =
      Inv-on_nsg self (internet_label port) (from_cidr port internet []) c (inl (rw h.own_role e)) h

  pub Inv-ambient_nsg_rules :
      (r : Role) (ports : List ℕ)
      → exposes role ≡ is_public r.subnet_tier
      → Keeps (Inv P self role) (ambient_nsg_rules self r ports)
  unfolding ambient_nsg_rules allow_to_services allow_to_cidr to_services to_cidr
  Inv-ambient_nsg_rules r ports e =
      let K = Inv P self role in
      let open_port =
        λ (port : ℕ). on_nsg self (allow_from_cidr (internet_label port) port internet []) in
      let services = λ (svc_cidr : Text).
        when r.egress_services (on_nsg self (allow_to_services (codes "svc-out") svc_cidr [])) in
      let out =
        when r.egress_internet (on_nsg self (allow_to_cidr (codes "inet-out") internet [])) in
      Keeps-bind K (when (is_public r.subnet_tier) (for_each ports open_port))
        (λ _. gets (λ c. c.svc_cidr) >>= λ svc_cidr. services svc_cidr >> out)
        (Keeps-when K (is_public r.subnet_tier) (for_each ports open_port)
          (λ tier. Keeps-for_each K ports open_port (λ port. Inv-open_port port (e ∙ tier))))
        (λ _ c h.
          Keeps-bind K (services c.svc_cidr) (λ _. out)
            (Keeps-when K r.egress_services _ (λ _. Inv-on_nsg_inner self _ _ tt))
            (λ _. Keeps-when K r.egress_internet _ (λ _. Inv-on_nsg_inner self _ _ tt)) c h)

  Inv-connect :
      (source target port : ℕ) (what : Text)
      → Keeps (Inv P self role) (connect source target port what)
  unfolding to_nsg from_nsg
  Inv-connect source target port what c h = rw connect-eq (
      Keeps-bind (Inv P self role) (call_out c source target port what)
        (λ _. call_in c source target port what) (Inv-on_nsg_inner source _ _ tt)
        (λ _. Inv-on_nsg_inner target _ _ tt) c h)

  Inv-connect_tiers :
      (network : Network) (from to : SubnetTier) (port : ℕ) (what title : Text)
      → Keeps (Inv P self role) (connect_tiers network from to port what title)
  unfolding connect_tiers
  Inv-connect_tiers network from to port what title =
      let K = Inv P self role in
      Keeps-bind K (cidr_for_tier network from) _ (Inv-cidr_for_tier network from) λ source.
        Keeps-bind K (cidr_for_tier network to) _ (Inv-cidr_for_tier network to) λ target.
          Keeps-bind K (sl_for_tier network _ _) _ (Inv-sl_for_tier network _ _)
            λ _. Inv-sl_for_tier network _ _

  Inv-serves_tiers :
      (network : Network) (source target : Option RoleObject) (port : ℕ) (ssh_too : Bool)
      → Keeps (Inv P self role) (serves_tiers network source target port ssh_too)
  unfolding serves_tiers
  Inv-serves_tiers (live v) (some source) (some target) port ssh_too =
      let K = Inv P self role in
      let from = (role_of source).subnet_tier in
      let to = (role_of target).subnet_tier in
      Keeps-if K (same_tier from to) _ _ (λ c h. h)
        (Keeps-bind K (connect_tiers (live v) from to port (str port) (codes "TCP " ++ str port)) _
          (Inv-connect_tiers (live v) from to port _ _)
          λ _. Keeps-when K ssh_too _ (λ _. Inv-connect_tiers (live v) from to ssh _ _))
  Inv-serves_tiers (live v) none target port ssh_too = λ c h. h
  Inv-serves_tiers (live v) (some source) none port ssh_too = λ c h. h
  Inv-serves_tiers (imported ref) source target port ssh_too = λ c h. h

  pub Inv-serves :
      (source target port : ℕ) (with_ssh : Bool)
      → Keeps (Inv P self role) (serves source target port with_ssh)
  Inv-serves source target port with_ssh c h =
      let K = Inv P self role in
      rw serves-eq (
        Keeps-bind K (connect source target port (str port)) _
          (Inv-connect source target port (str port))
          (λ _.
            Keeps-bind K
              (when (needs_ssh c target with_ssh) (connect source target ssh (codes "ssh"))) _
              (Keeps-when K (needs_ssh c target with_ssh) _ (λ _. Inv-connect source target ssh _))
              (λ _. Inv-serves_tiers _ _ _ port _))
          c h)
