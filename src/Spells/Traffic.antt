-- ===== src/Spells/Traffic.antt =====
-- What security lists let through.
use cloudspells.Common.{
  ◌≡◌, ap, ◌∙◌, ℕ, Bool, true, false, ◌&&◌, ◌||◌, Option, none, some, List, [], ◌∷◌, ◌++◌, leb,
  arith,
}
use cloudspells.Common.Text.{Text, codes, text_eq}
use cloudspells.IpNetwork.{IpText}
use cloudspells.Roles.{SubnetTier, public, private, at_tier}
use cloudspells.Rules.{SlIngress, SlEgress, SlRules, AddressType, cidr_block, PortRange, extend}
use cloudspells.Subnets.{SubnetCidrs}
use cloudspells.Vcn.Defs.{VcnArgs, Vcn, Subnet, subnet_cidr}
use cloudspells.Vcn.Frame.{finalize-frame}
use cloudspells.Vcn.Finalize.{finalize_network, baseline}
use cloudspells.Vcn.Lifecycle.{finalize_network-IsWired}

abbrev covers : Option PortRange → ℕ → Bool
covers none port = true
covers (some range) port = leb range.min port && leb port range.max

abbrev is_cidr : AddressType → Bool
is_cidr cidr_block = true
is_cidr _ = false

abbrev carries_tcp : Text → Bool
carries_tcp protocol = text_eq protocol (codes "6") || text_eq protocol (codes "all")

-- The list lets TCP connections out to the CIDR on the port.
unfoldable pub sends : List SlEgress → Text → ℕ → Bool
sends [] destination port = false
sends (rule ∷ rules) destination port =
    (carries_tcp rule.protocol
      && is_cidr rule.destination_type
      && text_eq rule.destination destination
      && covers rule.tcp_options port)
    || sends rules destination port

-- The list lets TCP connections in from the CIDR on the port.
unfoldable pub takes : List SlIngress → Text → ℕ → Bool
takes [] source port = false
takes (rule ∷ rules) source port =
    (carries_tcp rule.protocol
      && is_cidr rule.source_type
      && text_eq rule.source source
      && covers rule.tcp_options port)
    || takes rules source port

sends-append_left :
    (xs ys : List SlEgress) (destination : Text) (port : ℕ)
    → sends xs destination port ≡ true
    → sends (xs ++ ys) destination port ≡ true
unfolding sends
sends-append_left [] ys destination port h = absurd (ground arith)
sends-append_left (x ∷ xs) ys destination port h =
    ground (arith, sends-append_left xs ys destination port)

sends-append_right :
    (xs ys : List SlEgress) (destination : Text) (port : ℕ)
    → sends ys destination port ≡ true
    → sends (xs ++ ys) destination port ≡ true
unfolding sends
sends-append_right [] ys destination port h = h
sends-append_right (x ∷ xs) ys destination port h =
    rw (sends-append_right xs ys destination port h) (ground arith)

takes-append_left :
    (xs ys : List SlIngress) (source : Text) (port : ℕ)
    → takes xs source port ≡ true
    → takes (xs ++ ys) source port ≡ true
unfolding takes
takes-append_left [] ys source port h = absurd (ground arith)
takes-append_left (x ∷ xs) ys source port h = ground (arith, takes-append_left xs ys source port)

takes-append_right :
    (xs ys : List SlIngress) (source : Text) (port : ℕ)
    → takes ys source port ≡ true
    → takes (xs ++ ys) source port ≡ true
unfolding takes
takes-append_right [] ys source port h = h
takes-append_right (x ∷ xs) ys source port h =
    rw (takes-append_right xs ys source port h) (ground arith)

sends_same :
    (port : ℕ) {xs ys : List SlEgress} {s t : Text}
    → xs ≡ ys
    → s ≡ t
    → sends ys t port ≡ true
    → sends xs s port ≡ true
sends_same port e e' h = rw (e, e') h

takes_same :
    (port : ℕ) {xs ys : List SlIngress} {s t : Text}
    → xs ≡ ys
    → s ≡ t
    → takes ys t port ≡ true
    → takes xs s port ≡ true
takes_same port e e' h = rw (e, e') h

-- The subnets of two tiers, the lists of which let the traffic through from one to the other.
pub record IsOpenTo (v : Vcn) (near far : SubnetTier) (port : ℕ) : Type 0 where
  pub from : Subnet
  pub to : Subnet
  pub from_there : at_tier v.subnets near ≡ some from
  pub to_there : at_tier v.subnets far ≡ some to
  pub sent : sends from.security_list.egress_security_rules to.cidr port ≡ true
  pub taken : takes to.security_list.ingress_security_rules from.cidr port ≡ true

pub finalize-IsOpenTo :
    (ip : IpText) (v : Vcn) (before added : SlRules) (port : ℕ)
    → v.security_lists_finalized ≡ false
    → v.rules ≡ extend before added
    → sends added.public_egress (subnet_cidr v private) port ≡ true
    → takes added.private_ingress (subnet_cidr v public) port ≡ true
    → IsOpenTo (finalize_network ip v).1 public private port
finalize-IsOpenTo ip v before added port open_ e out back =
    let (_, _, rules, wired) = finalize_network-IsWired ip v open_ in
    let cidrs = ap (λ (f : VcnArgs × SubnetCidrs). f.1) (finalize-frame ip v) in
    let (from, from_there, near) = wired public in
    let (to, to_there, far) = wired private in
    let all = rules ∙ ap (λ r. extend r (baseline v.args.svc_cidr_block)) e in
    record {
      from = from;
      to = to;
      from_there = from_there;
      to_there = to_there;
      sent =
          sends_same port (near.own_egress ∙ ap (λ (r : SlRules). r.public_egress) all)
            (far.own_cidr ∙ ap (λ (c : SubnetCidrs). c.private) cidrs)
            (sends-append_left _ _ _ port (sends-append_right before.public_egress _ _ port out));
      taken =
          takes_same port (far.own_ingress ∙ ap (λ (r : SlRules). r.private_ingress) all)
            (near.own_cidr ∙ ap (λ (c : SubnetCidrs). c.public) cidrs)
            (takes-append_left _ _ _ port
              (takes-append_right before.private_ingress _ _ port back));
    }
