-- ===== src/Vcn/Addresses.antt =====
-- The constructor and the address plan: what a new VCN's four address ranges are.
use cloudspells.Common.{
  arith, ℕ, suc, ◌+◌, ◌*◌, ◌^◌, ◌≤◌, ◌<◌, leb, Bool-cases, ◌≡◌, ◌⊎◌, ◌↔◌, ap, sym, ◌∙◌, inl, inr,
  [], ◌∷◌,
}
use native.Mathlib.Nat.{mul_assoc, mul_comm}
use cloudspells.Common.Text.{Text}
use cloudspells.Exec.{ok, err, index_error}
use cloudspells.IpNetwork.{IpNetwork, IpText, tally, num_addresses}
use cloudspells.Roles.{SubnetTier, public, private, secure, management}
use cloudspells.Subnets.{TierNetworks, SubnetCidrs, split_networks, split_tiers}
use cloudspells.Subnets.Tiers.{
  first_half, second_half, num_addresses_half, tiers_of, split_networks-eq, split_networks_small,
  tally-tiers_of, tier_list,
}
use cloudspells.Vcn.Defs.{Vcn, VcnArgs, new_vcn, initial_vcn, vcn_block, subnet_cidr}

abbrev pub network_of : TierNetworks → SubnetTier → IpNetwork
network_of t public = t.public
network_of t private = t.private
network_of t secure = t.secure
network_of t management = t.management

-- The printed plan.
abbrev cidrs_of : IpText → TierNetworks → SubnetCidrs
cidrs_of ip t = record {
  public = ip.to_text t.public;
  private = ip.to_text t.private;
  secure = ip.to_text t.secure;
  management = ip.to_text t.management;
}

split_tiers-eq :
    (ip : IpText) (block : Text) (net : IpNetwork) (t : TierNetworks)
    → ip.ip_network block ≡ ok net
    → split_networks net ≡ ok t
    → split_tiers ip block ≡ ok (cidrs_of ip t)
unfolding split_tiers
split_tiers-eq ip block net t parsed split = rw (parsed, split)

new_vcn-eq :
    (ip : IpText) (a : VcnArgs) (cidrs : SubnetCidrs)
    → split_tiers ip (vcn_block a) ≡ ok cidrs
    → new_vcn ip a ≡ ok (initial_vcn a (vcn_block a) cidrs)
unfolding new_vcn
new_vcn-eq ip a cidrs split = ground arith

-- What `ipaddress.ip_network` makes with `strict=True`: an IPv4 or IPv6 network without host bits.
pub record IsNetwork (net : IpNetwork) : Type 0 where
  pub version : (net.max_prefixlen ≡ 32) ⊎ (net.max_prefixlen ≡ 128)
  pub prefix_fits : net.prefixlen ≤ net.max_prefixlen
  pub index : ℕ
  pub no_host_bits : net.network_address ≡ index * num_addresses net
  pub in_range : net.network_address + num_addresses net ≤ 2 ^ net.max_prefixlen

-- A printed network is read back as it was.
abbrev pub IsReadBack : IpText → Type 0
IsReadBack ip = (n : IpNetwork) → IsNetwork n → ip.ip_network (ip.to_text n) ≡ ok n

twice_index : (i half whole : ℕ) → 2 * half ≡ whole → i * whole ≡ (2 * i) * half
twice_index i half whole e =
    ap (λ n. i * n) (sym e) ∙ sym (mul_assoc i 2 half) ∙ ap (λ n. n * half) (mul_comm i 2)

one_more : (k n : ℕ) → k * n + n ≡ suc k * n
one_more k n = omega arith

first_half-IsNetwork :
    (net : IpNetwork)
    → IsNetwork net
    → net.prefixlen < net.max_prefixlen
    → IsNetwork (first_half net)
first_half-IsNetwork net h room =
    let half = num_addresses_half net room in
    record {
      version = h.version;
      prefix_fits = omega arith;
      index = 2 * h.index;
      no_host_bits =
          h.no_host_bits
          ∙ twice_index h.index (num_addresses (first_half net)) (num_addresses net) half;
      in_range = omega (arith, h.in_range, half);
    }

second_half-IsNetwork :
    (net : IpNetwork)
    → IsNetwork net
    → net.prefixlen < net.max_prefixlen
    → IsNetwork (second_half net)
second_half-IsNetwork net h room =
    let half = num_addresses_half net room in
    let size = num_addresses (first_half net) in
    record {
      version = h.version;
      prefix_fits = omega arith;
      index = suc (2 * h.index);
      no_host_bits =
          ap (λ n. n + size) (h.no_host_bits ∙ twice_index h.index size (num_addresses net) half)
          ∙ one_more (2 * h.index) size;
      in_range = omega (arith, h.in_range, half);
    }

tiers-AreNetworks :
    (net : IpNetwork)
    → IsNetwork net
    → net.prefixlen + 3 ≤ net.max_prefixlen
    → (tier : SubnetTier) → IsNetwork (network_of (tiers_of net) tier)
tiers-AreNetworks net h room private = first_half-IsNetwork net h (omega arith)
tiers-AreNetworks net h room secure =
    first_half-IsNetwork (second_half net) (second_half-IsNetwork net h (omega arith)) (omega arith)
tiers-AreNetworks net h room public =
    let rest = second_half-IsNetwork net h (omega arith) in
    first_half-IsNetwork (second_half (second_half net))
      (second_half-IsNetwork (second_half net) rest (omega arith)) (omega arith)
tiers-AreNetworks net h room management =
    let rest = second_half-IsNetwork net h (omega arith) in
    second_half-IsNetwork (second_half (second_half net))
      (second_half-IsNetwork (second_half net) rest (omega arith)) (omega arith)

reads_back :
    (ip : IpText)
    → IsReadBack ip
    → (a : VcnArgs) (block : Text) (t : TierNetworks)
    → ((tier : SubnetTier) → IsNetwork (network_of t tier))
    → (tier : SubnetTier)
    → ip.ip_network (subnet_cidr (initial_vcn a block (cidrs_of ip t)) tier)
      ≡ ok (network_of t tier)
unfolding initial_vcn
reads_back ip reads a block t are public = reads t.public (are public)
reads_back ip reads a block t are private = reads t.private (are private)
reads_back ip reads a block t are secure = reads t.secure (are secure)
reads_back ip reads a block t are management = reads t.management (are management)

-- A VCN over a block of at least eight addresses, an IPv4 or IPv6 network without host bits, can be
-- made. Read back, the address ranges that it hands out for its four tiers are such networks too,
-- and hold each address of the block exactly once, and no other address, where a network of this
-- kind that is printed is read back as it was.
pub new_vcn-tiles :
    (ip : IpText)
    → IsReadBack ip
    → (a : VcnArgs) (net : IpNetwork) → ip.ip_network (vcn_block a) ≡ ok net
    → IsNetwork net
    → net.prefixlen + 3 ≤ net.max_prefixlen
    → (v : Vcn) × (new_vcn ip a ≡ ok v)
      × (t : TierNetworks) × ((tier : SubnetTier)
          → (ip.ip_network (subnet_cidr v tier) ≡ ok (network_of t tier))
            × IsNetwork (network_of t tier))
      × ((x : ℕ) → tally x (tier_list t) ≡ tally x (net ∷ []))
unfolding initial_vcn
new_vcn-tiles ip reads a net parsed valid room =
    let t = tiers_of net in
    let are = tiers-AreNetworks net valid room in
    (
      initial_vcn a (vcn_block a) (cidrs_of ip t),
      new_vcn-eq ip a (cidrs_of ip t)
          (split_tiers-eq ip (vcn_block a) net t parsed (split_networks-eq net room)),
      t,
      λ tier. (reads_back ip reads a (vcn_block a) t are tier, are tier),
      λ x. tally-tiers_of net x room,
    )

split_tiers_small :
    (ip : IpText) (block : Text) (net : IpNetwork)
    → ip.ip_network block ≡ ok net
    → split_networks net ≡ err index_error
    → split_tiers ip block ≡ err index_error
unfolding split_tiers
split_tiers_small ip block net parsed split = rw (parsed, split)

new_vcn_fails :
    (ip : IpText) (a : VcnArgs)
    → split_tiers ip (vcn_block a) ≡ err index_error
    → new_vcn ip a ≡ err index_error
unfolding new_vcn
new_vcn_fails ip a split = ground arith

-- Where the block is read as a network, the constructor raises `IndexError` exactly if it has fewer
-- than eight addresses, whatever else is given.
pub new_vcn_too_small :
    (ip : IpText) (a : VcnArgs) (net : IpNetwork)
    → ip.ip_network (vcn_block a) ≡ ok net
    → net.prefixlen ≤ net.max_prefixlen
    → (new_vcn ip a ≡ err index_error) ↔ (net.max_prefixlen < net.prefixlen + 3)
new_vcn_too_small ip a net parsed fits = (
  λ failed. elim (Bool-cases (leb (net.prefixlen + 3) net.max_prefixlen)) [
    | inl enough ↦
        let room : net.prefixlen + 3 ≤ net.max_prefixlen = ground arith in
        let made = new_vcn-eq ip a (cidrs_of ip (tiers_of net)) (
          split_tiers-eq ip (vcn_block a) net (tiers_of net) parsed (split_networks-eq net room)) in
        absurd (cc)
    | inr small ↦ ground arith
  ],
  λ small.
      new_vcn_fails ip a
        (split_tiers_small ip (vcn_block a) net parsed (split_networks_small net fits small)),
)
