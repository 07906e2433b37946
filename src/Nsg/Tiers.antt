-- ===== src/Nsg/Tiers.antt =====
-- What `serves` puts in the security lists of a live network.
use cloudspells.Common.{
  ℕ, ◌≡◌, refl, ap, Bool, true, false, Option, some, [], ◌∷◌, ◌++◌, ◌==◌, ==_iff,
}
use mathlib.Core.Path.{subst}
use cloudspells.Common.Text.{Text, codes}
use cloudspells.Common.Decimal.{str}
use cloudspells.Exec.{ok, when, >>-ok}
use cloudspells.Exec.Keeps.{Keeps, Keeps-bind, Keeps-when}
use cloudspells.Roles.{SubnetTier, same_tier, RoleObject, role_of}
use cloudspells.Rules.{SlIngress, SlEgress, sl_ingress_tcp, sl_egress_tcp}
use cloudspells.Vcn.Defs.{Vcn, subnet_cidr, has_ambient_rule}
use cloudspells.Nsg.Defs.{Network, live}
use cloudspells.Nsg.Roles.{
  Cloud, on_nsg, on_vcn, sl_for_tier, cidr_for_tier, ingress_for, egress_for, connect,
  connect_tiers, serves, serves_tiers, egress_fingerprint, ingress_fingerprint, tier_text, ssh,
}
use cloudspells.Nsg.Serves.{call_out, call_in, connect-eq, serves-eq, after_port, needs_ssh}
use cloudspells.Nsg.Lists.{
  IsListed, add_unique-first, fingerprints_differ, IsListed-sl_for_tier, IsListed-both,
}

-- The two rules of one connection between tiers.
abbrev pub rule_out : Vcn → SubnetTier → ℕ → Text → SlEgress
rule_out v to port title =
    sl_egress_tcp port (subnet_cidr v to) (title ++ tier_text (codes " to ") to (codes " tier"))

abbrev pub rule_back : Vcn → SubnetTier → ℕ → Text → SlIngress
rule_back v from port title =
    sl_ingress_tcp port (subnet_cidr v from)
      (title ++ tier_text (codes " from ") from (codes " tier"))

connect_tiers-IsListed :
    (k : ℕ) (from to : SubnetTier) (port : ℕ) (what title : Text) (c : Cloud)
    → same_tier from to ≡ false
    → (c.vcns k).security_lists_finalized ≡ false
    → has_ambient_rule (c.vcns k) (egress_fingerprint from what to) ≡ false
    → has_ambient_rule (c.vcns k) (ingress_fingerprint to what from) ≡ false
    → IsListed from to
        (rule_out (c.vcns k) to port title)
        (rule_back (c.vcns k) from port title)
        ((connect_tiers (live k) from to port what title c).1.vcns k)
unfolding connect_tiers sl_for_tier on_vcn cidr_for_tier
connect_tiers-IsListed k from to port what title c apart open_ fresh_f fresh_g =
    let e : (k == k) ≡ true = (==_iff k k).1 refl in
    let first =
      add_unique-first (egress_fingerprint from what to)
        (egress_for from (rule_out (c.vcns k) to port title ∷ [])) (c.vcns k) open_ fresh_f in
    let both =
      IsListed-both from to (rule_out (c.vcns k) to port title)
        (rule_back (c.vcns k) from port title) (egress_fingerprint from what to)
        (ingress_fingerprint to what from) (c.vcns k) open_ fresh_f fresh_g
        (fingerprints_differ from to what apart) in
    rw (first, e) (rw first at both)

-- Connections between groups do not touch networks.
connect-vcns :
    (vcns : ℕ → Vcn) (self target port : ℕ) (what : Text)
    → Keeps (λ c. c.vcns ≡ vcns) (connect self target port what)
unfolding on_nsg
connect-vcns vcns self target port what c h = rw connect-eq (
    Keeps-bind (λ (c : Cloud). c.vcns ≡ vcns) (call_out c self target port what)
      (λ _. call_in c self target port what) (λ c h. h) (λ _ c h. h) c h)

IsListed-connect_tiers :
    (from to : SubnetTier) (out : SlEgress) (back : SlIngress) (k : ℕ) (a b : SubnetTier) (port : ℕ)
    (what title : Text)
    → Keeps (λ c. IsListed from to out back (c.vcns k)) (connect_tiers (live k) a b port what title)
unfolding connect_tiers cidr_for_tier
IsListed-connect_tiers from to out back k a b port what title c h =
    let K : Cloud → Type 0 = λ c. IsListed from to out back (c.vcns k) in
    Keeps-bind K
      (sl_for_tier (live k) (egress_fingerprint a what b)
        (egress_for a (rule_out (c.vcns k) b port title ∷ [])))
      (λ _.
        sl_for_tier (live k) (ingress_fingerprint b what a)
          (ingress_for b (rule_back (c.vcns k) a port title ∷ [])))
      (IsListed-sl_for_tier from to out back k _ _)
      (λ _. IsListed-sl_for_tier from to out back k _ _) c h

-- the steps of `serves` after the connections of the groups
serves_tiers-IsListed :
    (k : ℕ) (v : Vcn) (source target : RoleObject) (port : ℕ) (ssh_too : Bool) (c : Cloud)
    → c.vcns k ≡ v
    → same_tier (role_of source).subnet_tier (role_of target).subnet_tier ≡ false
    → v.security_lists_finalized ≡ false
    → has_ambient_rule v
        (egress_fingerprint (role_of source).subnet_tier (str port) (role_of target).subnet_tier)
      ≡ false
    → has_ambient_rule v
        (ingress_fingerprint (role_of target).subnet_tier (str port) (role_of source).subnet_tier)
      ≡ false
    → (serves_tiers (live k) (some source) (some target) port ssh_too c).0 ≡ ok tt
    → IsListed
        (role_of source).subnet_tier
        (role_of target).subnet_tier
        (rule_out v (role_of target).subnet_tier port (codes "TCP " ++ str port))
        (rule_back v (role_of source).subnet_tier port (codes "TCP " ++ str port))
        ((serves_tiers (live k) (some source) (some target) port ssh_too c).1.vcns k)
unfolding serves_tiers
serves_tiers-IsListed k v source target port ssh_too c same apart open_ fresh_f fresh_g h =
    let from = (role_of source).subnet_tier in
    let to = (role_of target).subnet_tier in
    let title = codes "TCP " ++ str port in
    let first = connect_tiers (live k) from to port (str port) title in
    let more = connect_tiers (live k) from to ssh (codes "22") (codes "SSH") in
    let out = rule_out v to port title in
    let back = rule_back v from port title in
    let (_, _, e) = >>-ok first (when ssh_too more) c (rw apart at h) in
    let made =
      connect_tiers-IsListed k from to port (str port) title c apart (rw same open_)
        (rw same fresh_f) (rw same fresh_g) in
    rw (apart, e)
      (Keeps-when (λ (c' : Cloud). IsListed from to out back (c'.vcns k)) ssh_too more
        (λ _. IsListed-connect_tiers from to out back k from to ssh (codes "22") (codes "SSH"))
        (first c).1
        (subst
          (λ w.
            IsListed from to (rule_out w to port title) (rule_back w from port title)
              ((first c).1.vcns k))
          same made))

serves_tiers-IsListed_at :
    (k : ℕ) (v : Vcn) (network : Network) (r s : Option RoleObject) (source target : RoleObject)
    (port : ℕ) (ssh_too : Bool) (c : Cloud)
    → network ≡ live k
    → r ≡ some source
    → s ≡ some target
    → c.vcns k ≡ v
    → same_tier (role_of source).subnet_tier (role_of target).subnet_tier ≡ false
    → v.security_lists_finalized ≡ false
    → has_ambient_rule v
        (egress_fingerprint (role_of source).subnet_tier (str port) (role_of target).subnet_tier)
      ≡ false
    → has_ambient_rule v
        (ingress_fingerprint (role_of target).subnet_tier (str port) (role_of source).subnet_tier)
      ≡ false
    → (serves_tiers network r s port ssh_too c).0 ≡ ok tt
    → IsListed
        (role_of source).subnet_tier
        (role_of target).subnet_tier
        (rule_out v (role_of target).subnet_tier port (codes "TCP " ++ str port))
        (rule_back v (role_of source).subnet_tier port (codes "TCP " ++ str port))
        ((serves_tiers network r s port ssh_too c).1.vcns k)
serves_tiers-IsListed_at k v network r s source target port ssh_too c on from to same apart open_ f
      g h =
    rw (on, from, to)
      (serves_tiers-IsListed k v source target port ssh_too c same apart open_ f g
        (rw (on, from, to) at h))

-- A call of `serves` that returns, between groups whose roles are of different tiers, on a live
-- network that is open and where neither fingerprint of the connection is taken, leaves the
-- egress rule in the list of the one tier and the ingress rule in the list of the other, each
-- with the address range of the tier opposite.
pub serves-IsListed :
    (k self target port : ℕ) (with_ssh : Bool) (c : Cloud) (source served : RoleObject)
    → (c.nsgs self).network ≡ live k
    → (c.nsgs self).role ≡ some source
    → (c.nsgs target).role ≡ some served
    → same_tier (role_of source).subnet_tier (role_of served).subnet_tier ≡ false
    → (c.vcns k).security_lists_finalized ≡ false
    → has_ambient_rule
        (c.vcns k)
        (egress_fingerprint (role_of source).subnet_tier (str port) (role_of served).subnet_tier)
      ≡ false
    → has_ambient_rule
        (c.vcns k)
        (ingress_fingerprint (role_of served).subnet_tier (str port) (role_of source).subnet_tier)
      ≡ false
    → (serves self target port with_ssh c).0 ≡ ok tt
    → IsListed
        (role_of source).subnet_tier
        (role_of served).subnet_tier
        (rule_out (c.vcns k) (role_of served).subnet_tier port (codes "TCP " ++ str port))
        (rule_back (c.vcns k) (role_of source).subnet_tier port (codes "TCP " ++ str port))
        ((serves self target port with_ssh c).1.vcns k)
serves-IsListed k self target port with_ssh c source served on from to apart open_ fresh_f fresh_g
      h =
    let ssh_too = needs_ssh c target with_ssh in
    let first = connect self target port (str port) in
    let more = connect self target ssh (codes "ssh") in
    let tiers =
      serves_tiers (c.nsgs self).network (c.nsgs self).role (c.nsgs target).role port ssh_too in
    let e = serves-eq self target port with_ssh c in
    let (_, later, e') = >>-ok first (after_port c self target port ssh_too) c (rw e at h) in
    let (_, last, e'') = >>-ok (when ssh_too more) tiers (first c).1 later in
    let c2 = (when ssh_too more (first c).1).1 in
    let same : c2.vcns ≡ c.vcns =
      Keeps-when (λ (c' : Cloud). c'.vcns ≡ c.vcns) ssh_too more
        (λ _. connect-vcns c.vcns self target ssh (codes "ssh")) (first c).1
        (connect-vcns c.vcns self target port (str port) c refl) in
    rw (e, e', e'')
      (serves_tiers-IsListed_at k (c.vcns k) (c.nsgs self).network (c.nsgs self).role
        (c.nsgs target).role source served port ssh_too c2 on from to
        (ap (λ (vcns : ℕ → Vcn). vcns k) same) apart open_ fresh_f fresh_g last)
