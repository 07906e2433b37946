-- ===== src/Nsg/Roles.antt =====
-- The operations that span objects: `Nsg.__init__` with its ambient rules, and `serves`.
use cloudspells.Common.{
  ℕ, Bool, true, false, ◌&&◌, Option, none, some, List, [], ◌∷◌, ◌++◌, ◌==◌, if◌then◌else◌,
}
use cloudspells.Common.Text.{Text, codes}
use cloudspells.Common.Decimal.{str}
use cloudspells.Exec.{
  Exec, Action, ok, err, value_error, done, gets, lift, for_each, when, ◌>>=◌, ◌>>◌,
}
use cloudspells.Roles.{
  SubnetTier, public, private, secure, management, tier_name, same_tier, Role, RoleObject, role_of,
  is_internet_edge,
}
use cloudspells.Rules.{
  SlIngress, SlEgress, SlRules, no_rules, internet, sl_ingress_tcp, sl_egress_tcp,
  sl_egress_all_services, sl_egress_all_internet,
}
use cloudspells.Vcn.Defs.{Vcn, subnet_cidr, add_unique_security_list_rules}
use cloudspells.VcnRef.{ref_get_secure_subnet_cidr, ref_get_management_subnet_cidr}
use cloudspells.Nsg.Defs.{
  Network, live, imported, Nsg, allow_from_cidr, allow_from_nsg, allow_to_nsg, allow_to_services,
  allow_to_cidr,
}

-- `svc_cidr` is the value of the output that `get_svc_cidr` returns.
pub record Cloud : Type 0 where
  pub vcns : ℕ → Vcn
  pub nsgs : ℕ → Nsg
  pub svc_cidr : Text

abbrev pub update : {A : Type 0} → (ℕ → A) → ℕ → A → ℕ → A
update f i a j = if i == j then a else f j

-- A method call on the object at a key.
unfoldable pub on_nsg : ℕ → Action Nsg → Action Cloud
on_nsg i m c = let (r, g) = m (c.nsgs i) in (r, record c { nsgs = update c.nsgs i g })

unfoldable pub on_vcn : ℕ → Action Vcn → Action Cloud
on_vcn i m c = let (r, v) = m (c.vcns i) in (r, record c { vcns = update c.vcns i v })

-- Rules for one tier's list.
abbrev pub ingress_for : SubnetTier → List SlIngress → SlRules
ingress_for public rules = record (no_rules {I = SlIngress} {E = SlEgress}) {
  public_ingress = rules;
}
ingress_for private rules = record (no_rules {I = SlIngress} {E = SlEgress}) {
  private_ingress = rules;
}
ingress_for secure rules = record (no_rules {I = SlIngress} {E = SlEgress}) {
  secure_ingress = rules;
}
ingress_for management rules = record (no_rules {I = SlIngress} {E = SlEgress}) {
  management_ingress = rules;
}

abbrev pub egress_for : SubnetTier → List SlEgress → SlRules
egress_for public rules = record (no_rules {I = SlIngress} {E = SlEgress}) { public_egress = rules }
egress_for private rules = record (no_rules {I = SlIngress} {E = SlEgress}) {
  private_egress = rules;
}
egress_for secure rules = record (no_rules {I = SlIngress} {E = SlEgress}) { secure_egress = rules }
egress_for management rules = record (no_rules {I = SlIngress} {E = SlEgress}) {
  management_egress = rules;
}

-- `_sl_for_tier`, with the rules as `ingress_for` or `egress_for` places them.
unfoldable pub sl_for_tier : Network → Text → SlRules → Action Cloud
unfolding on_vcn
sl_for_tier (imported ref) fingerprint rules = done
sl_for_tier (live v) fingerprint rules = on_vcn v (add_unique_security_list_rules fingerprint rules)

unfoldable pub cidr_for_tier : Network → SubnetTier → Exec Cloud Text
cidr_for_tier (live v) tier = gets (λ c. subnet_cidr (c.vcns v) tier)
cidr_for_tier (imported ref) public = lift (ok ref.public_subnet_cidr)
cidr_for_tier (imported ref) private = lift (ok ref.private_subnet_cidr)
cidr_for_tier (imported ref) secure = lift (ref_get_secure_subnet_cidr ref)
cidr_for_tier (imported ref) management = lift (ref_get_management_subnet_cidr ref)

abbrev pub is_public : SubnetTier → Bool
is_public public = true
is_public _ = false

abbrev pub is_live : Network → Bool
is_live (live v) = true
is_live (imported ref) = false

-- The fingerprints of rules that security lists share.
unfoldable pub internet_fingerprint : ℕ → Text
internet_fingerprint port = codes "public-ingress-tcp-" ++ str port

unfoldable pub ambient_fingerprint : SubnetTier → Text → Text
ambient_fingerprint tier what = tier_name tier ++ (codes "-egress-all-" ++ what)

unfoldable pub egress_fingerprint : SubnetTier → Text → SubnetTier → Text
egress_fingerprint from port to =
    tier_name from ++ (codes "-egress-tcp-" ++ (port ++ (codes "-to-" ++ tier_name to)))

unfoldable pub ingress_fingerprint : SubnetTier → Text → SubnetTier → Text
ingress_fingerprint to port from =
    tier_name to ++ (codes "-ingress-tcp-" ++ (port ++ (codes "-from-" ++ tier_name from)))

unfoldable pub internet_label : ℕ → Text
internet_label port = codes "internet-in-" ++ str port

-- The rules that a role puts on its own group …
unfoldable pub ambient_nsg_rules : ℕ → Role → List ℕ → Action Cloud
unfolding on_nsg
ambient_nsg_rules self role ports = do
  when (is_public role.subnet_tier) (
      for_each ports (λ port. on_nsg self (allow_from_cidr (internet_label port) port internet [])))
  svc_cidr ← gets (λ c. c.svc_cidr)
  when role.egress_services (on_nsg self (allow_to_services (codes "svc-out") svc_cidr []))
  when role.egress_internet (on_nsg self (allow_to_cidr (codes "inet-out") internet []))

unfoldable pub internet_ingress : ℕ → SlRules
internet_ingress port =
    ingress_for public
      (sl_ingress_tcp port internet (codes "TCP " ++ (str port ++ codes " from internet")) ∷ [])

-- … and on the security lists of a live network.
unfoldable pub ambient_sl_rules : Network → Role → List ℕ → Action Cloud
unfolding internet_ingress
ambient_sl_rules network role ports = do
  let tier = role.subnet_tier
  when (is_public tier) (
      for_each ports
        (λ port. sl_for_tier network (internet_fingerprint port) (internet_ingress port)))
  svc_cidr ← gets (λ c. c.svc_cidr)
  when role.egress_services (
      sl_for_tier network (ambient_fingerprint tier (codes "services"))
        (egress_for tier (sl_egress_all_services svc_cidr ∷ [])))
  when role.egress_internet (
      sl_for_tier network (ambient_fingerprint tier (codes "internet"))
        (egress_for tier (sl_egress_all_internet ∷ [])))

unfoldable pub apply_role_ambient_rules : ℕ → Network → Role → List ℕ → Action Cloud
unfolding ambient_nsg_rules ambient_sl_rules
apply_role_ambient_rules self network role ports = do
  ambient_nsg_rules self role ports
  when (is_live network) (ambient_sl_rules network role ports)

pub record NsgArgs : Type 0 where
  pub stack_name : Text
  pub name : Text
  pub network : Network
  pub role : Option RoleObject
  pub ports : List ℕ

abbrev pub is_nil : List ℕ → Bool
is_nil [] = true
is_nil (_ ∷ _) = false

abbrev pub fresh_nsg : NsgArgs → Nsg
fresh_nsg a = record {
  stack_name = a.stack_name;
  name = a.name;
  network = a.network;
  role = a.role;
  rule_labels = [];
  next_rule_index = 0;
  rules = [];
}

abbrev pub lacks_ports : NsgArgs → Bool
lacks_ports a = elim a.role [ none ↦ false | some role ↦ is_internet_edge role && is_nil a.ports ]

abbrev pub ambient : ℕ → Network → List ℕ → Option RoleObject → Action Cloud
ambient self network ports none = done
ambient self network ports (some role) = apply_role_ambient_rules self network (role_of role) ports

-- `Nsg(…)`, as the object at key `self`.
unfoldable pub new_nsg : ℕ → NsgArgs → Action Cloud
unfolding apply_role_ambient_rules
new_nsg self a c =
    if lacks_ports a
    then (err value_error, c)
    else ambient self a.network a.ports a.role
        (record c { nsgs = update c.nsgs self (fresh_nsg a) })

unfoldable pub accepts_ssh : Option RoleObject → Bool
accepts_ssh none = true
accepts_ssh (some role) = (role_of role).accept_management_ssh

abbrev pub ssh : ℕ
ssh = 22

unfoldable pub out_label : Text → Text → Text
out_label target what = codes "out-" ++ (target ++ (codes "-" ++ what))

unfoldable pub in_label : Text → Text → Text
in_label source what = codes "in-" ++ (source ++ (codes "-" ++ what))

-- One connection between two groups: a rule on each side.
unfoldable pub connect : ℕ → ℕ → ℕ → Text → Action Cloud
unfolding on_nsg
connect self target port what c =
    let src = (c.nsgs self).name in
    let tgt = (c.nsgs target).name in
    (do
      on_nsg self (allow_to_nsg (out_label tgt what) target port [])
      on_nsg target (allow_from_nsg (in_label src what) self port []))
      c

unfoldable pub tier_text : Text → SubnetTier → Text → Text
tier_text before tier after = before ++ (tier_name tier ++ after)

-- One connection between two tiers: a rule in the security list of each.
unfoldable pub connect_tiers : Network → SubnetTier → SubnetTier → ℕ → Text → Text → Action Cloud
unfolding tier_text
connect_tiers network from to port what title = do
  src_cidr ← cidr_for_tier network from
  tgt_cidr ← cidr_for_tier network to
  sl_for_tier network (egress_fingerprint from what to) (
      egress_for from
        (sl_egress_tcp port tgt_cidr (title ++ tier_text (codes " to ") to (codes " tier")) ∷ []))
  sl_for_tier network (ingress_fingerprint to what from) (
      ingress_for to (
        sl_ingress_tcp port src_cidr (title ++ tier_text (codes " from ") from (codes " tier"))
        ∷ []))

-- The security lists come in where both roles are known, the network is live and the tiers differ.
unfoldable pub serves_tiers :
    Network → Option RoleObject → Option RoleObject → ℕ → Bool → Action Cloud
unfolding connect_tiers
serves_tiers (live v) (some source) (some target) port needs_ssh =
    let from = (role_of source).subnet_tier in
    let to = (role_of target).subnet_tier in
    if same_tier from to then done else (do
      connect_tiers (live v) from to port (str port) (codes "TCP " ++ str port)
      when needs_ssh (connect_tiers (live v) from to ssh (codes "22") (codes "SSH")))
serves_tiers _ _ _ port needs_ssh = done

-- `self.serves(target, port, with_ssh=…)`
unfoldable pub serves : ℕ → ℕ → ℕ → Bool → Action Cloud
unfolding connect serves_tiers
serves self target port with_ssh c =
    let needs_ssh = with_ssh && accepts_ssh (c.nsgs target).role in
    (do
      connect self target port (str port)
      when needs_ssh (connect self target ssh (codes "ssh"))
      serves_tiers (c.nsgs self).network (c.nsgs self).role (c.nsgs target).role port needs_ssh)
      c
