-- ===== src/Nsg/Serves.antt =====
-- What `serves` declares on both sides, and what it does not.
use cloudspells.Common.{
  ℕ, ◌≡◌, refl, sym, ◌∙◌, Bool, true, false, Option, none, some, List, [], ◌∷◌, ◌++◌, arith, ◌⊎◌,
  Bool-cases, inl, inr, if◌then◌else◌, ◌==◌, ==_iff, All, ◌&&◌,
}
use mathlib.Core.Path.{subst}
use cloudspells.Common.Text.{Text, contains, codes}
use cloudspells.Common.Decimal.{str}
use cloudspells.Exec.{Action, Result, ok, when, ◌>>◌, >>-ok}
use cloudspells.Roles.{RoleObject, role_of, SubnetTier, public, same_tier}
use cloudspells.Rules.{network_security_group, SlRules}
use cloudspells.Nsg.Defs.{
  Nsg, NsgRule, RuleArgs, Network, group, live, imported, ingress, egress, new_rule, add_rule,
  to_nsg, from_nsg, allow_to_nsg, allow_from_nsg, tcp, tcp_port,
}
use cloudspells.Vcn.Defs.{add_unique_security_list_rules}
use cloudspells.Nsg.Grows.{
  Growing-if, GroupGrows, Grows, Growing, Growing-bind, Growing-when, Growing-done, Growing-on_nsg,
  Growing-on_vcn,
}
use cloudspells.Nsg.Roles.{
  Cloud, on_nsg, connect, serves, serves_tiers, accepts_ssh, out_label, in_label, ssh, sl_for_tier,
  cidr_for_tier, connect_tiers,
}

-- Some item of the list has the property.
abbrev pub Any : {A : Type 0} → (A → Type 0) → List A → Type 0
Any P [] = ⊥
Any P (x ∷ xs) = P x ⊎ Any P xs

pub Any-append_left : {A : Type 0} (P : A → Type 0) (xs ys : List A) → Any P xs → Any P (xs ++ ys)
Any-append_left P [] ys h = elim h [ ]
Any-append_left P (x ∷ xs) ys (inl h) = inl h
Any-append_left P (x ∷ xs) ys (inr h) = inr (Any-append_left P xs ys h)

pub Any-append_right : {A : Type 0} (P : A → Type 0) (xs ys : List A) → Any P ys → Any P (xs ++ ys)
Any-append_right P [] ys h = h
Any-append_right P (x ∷ xs) ys h = inr (Any-append_right P xs ys h)

-- A rule lets TCP out to, or in from, one group at one port, and nothing else.
abbrev pub LetsOut : ℕ → ℕ → NsgRule → Type 0
LetsOut target port r =
    (r.direction ≡ egress)
    × (r.protocol ≡ tcp)
    × (r.destination ≡ some (group target))
    × (r.destination_type ≡ some network_security_group)
    × (r.tcp_options ≡ some (tcp_port port))

abbrev pub LetsIn : ℕ → ℕ → NsgRule → Type 0
LetsIn source port r =
    (r.direction ≡ ingress)
    × (r.protocol ≡ tcp)
    × (r.source ≡ some (group source))
    × (r.source_type ≡ some network_security_group)
    × (r.tcp_options ≡ some (tcp_port port))

-- Traffic from one group to the other passes both.
pub record IsOpen (c : Cloud) (self target port : ℕ) : Type 0 where
  pub out : Any (LetsOut target port) (c.nsgs self).rules
  pub back : Any (LetsIn self port) (c.nsgs target).rules

Any-grows : (P : NsgRule → Type 0) {g g' : Nsg} → GroupGrows g g' → Any P g.rules → Any P g'.rules
Any-grows P {g} x h = rw x.rules_grow (Any-append_left P g.rules x.more_rules h)

add_rule-adds :
    (P : NsgRule → Type 0) (label : Text) (a : RuleArgs) (g : Nsg)
    → (add_rule label a g).0 ≡ ok tt
    → P (new_rule g label a)
    → Any P (add_rule label a g).1.rules
unfolding add_rule
add_rule-adds P label a g h p = elim (Bool-cases (contains g.rule_labels label)) [
  | inl old ↦ absurd (ground arith)
  | inr new ↦ rw new (Any-append_right P g.rules (new_rule g label a ∷ []) (inl p))
]

on_nsg-adds :
    (P : NsgRule → Type 0) (i : ℕ) (label : Text) (a : RuleArgs) (c : Cloud)
    → (on_nsg i (add_rule label a) c).0 ≡ ok tt
    → P (new_rule (c.nsgs i) label a)
    → Any P ((on_nsg i (add_rule label a) c).1.nsgs i).rules
unfolding on_nsg
on_nsg-adds P i label a c h p =
    let e : (i == i) ≡ true = (==_iff i i).1 refl in rw e (add_rule-adds P label a (c.nsgs i) h p)

-- The two calls of a connection, with the names as they are in `c`.
abbrev pub call_out : Cloud → ℕ → ℕ → ℕ → Text → Action Cloud
call_out c self target port what =
    on_nsg self (add_rule (out_label (c.nsgs target).name what) (to_nsg target port []))

abbrev pub call_in : Cloud → ℕ → ℕ → ℕ → Text → Action Cloud
call_in c self target port what =
    on_nsg target (add_rule (in_label (c.nsgs self).name what) (from_nsg self port []))

pub connect-eq :
    (self target port : ℕ) (what : Text) (c : Cloud)
    → connect self target port what c
      ≡ (call_out c self target port what >> call_in c self target port what) c
unfolding connect allow_to_nsg allow_from_nsg
connect-eq self target port what c = refl

pub Growing-connect : (self target port : ℕ) (what : Text) → Growing (connect self target port what)
Growing-connect self target port what c = rw connect-eq (
    Growing-bind (call_out c self target port what) (λ _. call_in c self target port what)
      (Growing-on_nsg self _ _) (λ _. Growing-on_nsg target _ _) c)

-- A connection that is made is open: the rule out stands in the one group, the rule in in the other.
connect-IsOpen :
    (self target port : ℕ) (what : Text) (c : Cloud)
    → (connect self target port what c).0 ≡ ok tt
    → IsOpen (connect self target port what c).1 self target port
unfolding new_rule to_nsg from_nsg
connect-IsOpen self target port what c h =
    let e = connect-eq self target port what c in
    let (first, second, e') =
      >>-ok (call_out c self target port what) (call_in c self target port what) c (rw e at h) in
    rw (e, e')
      (record {
        out =
            Any-grows (LetsOut target port) (Growing-on_nsg target _ _ _ self)
              (on_nsg-adds (LetsOut target port) self _ _ c first (refl, refl, refl, refl, refl));
        back = on_nsg-adds (LetsIn self port) target _ _ _ second (refl, refl, refl, refl, refl);
      })

-- Networks change no group.
Growing-sl_for_tier :
    (network : Network) (fingerprint : Text) (rules : SlRules)
    → Growing (sl_for_tier network fingerprint rules)
unfolding sl_for_tier
Growing-sl_for_tier (live v) fingerprint rules =
    Growing-on_vcn v (add_unique_security_list_rules fingerprint rules)
Growing-sl_for_tier (imported ref) fingerprint rules = Growing-done

Growing-cidr_for_tier :
    (network : Network) (tier : SubnetTier) → Growing (cidr_for_tier network tier)
unfolding cidr_for_tier
Growing-cidr_for_tier (live v) tier c j = (Growing-done c j)
Growing-cidr_for_tier (imported ref) public c j = (Growing-done c j)
Growing-cidr_for_tier (imported ref) _ c j = (Growing-done c j)

Growing-connect_tiers :
    (network : Network) (from to : SubnetTier) (port : ℕ) (what title : Text)
    → Growing (connect_tiers network from to port what title)
unfolding connect_tiers
Growing-connect_tiers network from to port what title =
    Growing-bind (cidr_for_tier network from) _ (Growing-cidr_for_tier network from) λ source.
      Growing-bind (cidr_for_tier network to) _ (Growing-cidr_for_tier network to) λ target.
        Growing-bind (sl_for_tier network _ _) _ (Growing-sl_for_tier network _ _)
          λ _. Growing-sl_for_tier network _ _

pub Growing-serves_tiers :
    (network : Network) (source target : Option RoleObject) (port : ℕ) (needs_ssh : Bool)
    → Growing (serves_tiers network source target port needs_ssh)
unfolding serves_tiers
Growing-serves_tiers (live v) (some source) (some target) port needs_ssh =
    let from = (role_of source).subnet_tier in
    let to = (role_of target).subnet_tier in
    Growing-if (same_tier from to) _ _ Growing-done (
      Growing-bind (connect_tiers (live v) from to port (str port) (codes "TCP " ++ str port)) _
        (Growing-connect_tiers (live v) from to port _ _)
        λ _. Growing-when needs_ssh _ (Growing-connect_tiers (live v) from to ssh _ _))
Growing-serves_tiers (live v) none target port needs_ssh = Growing-done
Growing-serves_tiers (live v) (some source) none port needs_ssh = Growing-done
Growing-serves_tiers (imported ref) source target port needs_ssh = Growing-done

abbrev pub needs_ssh : Cloud → ℕ → Bool → Bool
needs_ssh c target with_ssh = with_ssh && accepts_ssh (c.nsgs target).role

abbrev pub after_port : Cloud → ℕ → ℕ → ℕ → Bool → Action Cloud
after_port c self target port ssh_too = do
  when ssh_too (connect self target ssh (codes "ssh"))
  serves_tiers (c.nsgs self).network (c.nsgs self).role (c.nsgs target).role port ssh_too

pub serves-eq :
    (self target port : ℕ) (with_ssh : Bool) (c : Cloud)
    → serves self target port with_ssh c
      ≡ (connect self target port (str port)
            >> after_port c self target port (needs_ssh c target with_ssh))
          c
unfolding serves
serves-eq self target port with_ssh c = refl

Growing-after_port :
    (c : Cloud) (self target port : ℕ) (ssh_too : Bool)
    → Growing (after_port c self target port ssh_too)
Growing-after_port c self target port ssh_too =
    Growing-bind (when ssh_too (connect self target ssh (codes "ssh"))) _
      (Growing-when ssh_too _ (Growing-connect self target ssh (codes "ssh")))
      λ _. Growing-serves_tiers _ _ _ port ssh_too

-- `serves` only adds: rules and labels of every group stay, and no group changes its role.
pub Growing-serves :
    (self target port : ℕ) (with_ssh : Bool) → Growing (serves self target port with_ssh)
Growing-serves self target port with_ssh c = rw serves-eq (
    Growing-bind (connect self target port (str port)) _
      (Growing-connect self target port (str port))
      (λ _. Growing-after_port c self target port (needs_ssh c target with_ssh)) c)

IsOpen-Grows :
    {c c' : Cloud} (self target port : ℕ)
    → Grows c c'
    → IsOpen c self target port
    → IsOpen c' self target port
IsOpen-Grows self target port g h = record {
  out = Any-grows (LetsOut target port) (g self) h.out;
  back = Any-grows (LetsIn self port) (g target) h.back;
}

-- The ports that a call opens.
abbrev pub served_ports : ℕ → Bool → List ℕ
served_ports port ssh_too = port ∷ (if ssh_too then ssh ∷ [] else [])

after_port-IsOpen :
    (c c' : Cloud) (self target port : ℕ) (ssh_too : Bool)
    → (after_port c self target port ssh_too c').0 ≡ ok tt
    → All
        (IsOpen (after_port c self target port ssh_too c').1 self target)
        (if ssh_too then ssh ∷ [] else [])
after_port-IsOpen c c' self target port false h = tt
after_port-IsOpen c c' self target port true h =
    let tiers =
      serves_tiers (c.nsgs self).network (c.nsgs self).role (c.nsgs target).role port true in
    let (first, _, e) = >>-ok (connect self target ssh (codes "ssh")) tiers c' h in
    rw e (
      IsOpen-Grows self target ssh (Growing-serves_tiers _ _ _ port true _)
          (connect-IsOpen self target ssh (codes "ssh") c' first),
      tt,
    )

-- A call of `serves` that returns has opened the port from the one group to the other, on both
-- sides, and port 22 too when SSH is asked for and the target's role accepts it. The two groups
-- may be one.
pub serves-IsOpen :
    (self target port : ℕ) (with_ssh : Bool) (c : Cloud)
    → (serves self target port with_ssh c).0 ≡ ok tt
    → All
        (IsOpen (serves self target port with_ssh c).1 self target)
        (served_ports port (needs_ssh c target with_ssh))
serves-IsOpen self target port with_ssh c h =
    let e = serves-eq self target port with_ssh c in
    let ssh_too = needs_ssh c target with_ssh in
    let (first, second, e') =
      >>-ok (connect self target port (str port)) (after_port c self target port ssh_too) c
        (rw e at h) in
    subst
      (λ (r : Result (Unit {0}) × Cloud). All (IsOpen r.1 self target) (served_ports port ssh_too))
      (sym (e ∙ e'))
      (
        IsOpen-Grows self target port (Growing-after_port c self target port ssh_too _)
            (connect-IsOpen self target port (str port) c first),
        after_port-IsOpen c _ self target port ssh_too second,
      )
