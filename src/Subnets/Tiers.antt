-- ===== src/Subnets/Tiers.antt =====
-- The four tiers tile the network that they are cut from.
use cloudspells.Common.{ℕ, ◌+◌, ◌-◌, ◌*◌, ◌^◌, ◌≤◌, ◌<◌, ◌≡◌, List, [], ◌∷◌, arith}
use native.Mathlib.Decide.{ℕ_discrete}
use cloudspells.Exec.{ok, err, index_error}
use cloudspells.IpNetwork.{IpNetwork, num_addresses, tally, subnets, range_networks}
use cloudspells.IpNetwork.Tiling.{subnets-eq-parts, tally-subnets, num_addresses-split}
use cloudspells.Subnets.{TierNetworks, split_networks}

abbrev pub first_half : IpNetwork → IpNetwork
first_half net = record net { prefixlen = net.prefixlen + 1 }

abbrev pub second_half : IpNetwork → IpNetwork
second_half net = record {
  max_prefixlen = net.max_prefixlen;
  network_address = net.network_address + 2 ^ (net.max_prefixlen - (net.prefixlen + 1));
  prefixlen = net.prefixlen + 1;
}

subnets_one :
    (net : IpNetwork)
    → net.prefixlen < net.max_prefixlen
    → subnets net 1 ≡ ok (first_half net ∷ second_half net ∷ [])
unfolding range_networks
subnets_one net h = subnets-eq-parts net 1 (omega arith)

tally_halves :
    (net : IpNetwork) (a : ℕ)
    → net.prefixlen < net.max_prefixlen
    → tally a (first_half net ∷ second_half net ∷ []) ≡ tally a (net ∷ [])
tally_halves net a h = tally-subnets net 1 a (subnets_one net h)

pub num_addresses_half :
    (net : IpNetwork)
    → net.prefixlen < net.max_prefixlen
    → 2 * num_addresses (first_half net) ≡ num_addresses net
num_addresses_half net h = num_addresses-split net 1 (omega arith)

-- the tiers that the code computes
abbrev pub tiers_of : IpNetwork → TierNetworks
tiers_of net = record {
  private = first_half net;
  secure = first_half (second_half net);
  public = first_half (second_half (second_half net));
  management = second_half (second_half (second_half net));
}

pub split_networks-eq :
    (net : IpNetwork)
    → net.prefixlen + 3 ≤ net.max_prefixlen
    → split_networks net ≡ ok (tiers_of net)
unfolding split_networks
split_networks-eq net h = rw (subnets_one net (omega arith)) (
    rw (subnets_one (second_half net) (omega arith))
      (rw (subnets_one (second_half (second_half net)) (omega arith))))

abbrev pub tier_list : TierNetworks → List IpNetwork
tier_list t = t.private ∷ t.secure ∷ t.public ∷ t.management ∷ []

pub tally-tiers_of :
    (net : IpNetwork) (a : ℕ)
    → net.prefixlen + 3 ≤ net.max_prefixlen
    → tally a (tier_list (tiers_of net)) ≡ tally a (net ∷ [])
unfolding tally
tally-tiers_of net a h =
    let rest = second_half net in
    omega (
      arith,
      tally_halves net a (omega arith),
      tally_halves rest a (omega arith),
      tally_halves (second_half rest) a (omega arith),
    )

-- A network with at least eight addresses splits into four tiers. Each of its addresses lies in
-- exactly one tier, an address outside in none, and the tiers have a half, a quarter and twice an
-- eighth of the addresses.
pub split_networks_tiles :
    (net : IpNetwork)
    → net.prefixlen + 3 ≤ net.max_prefixlen
    → (t : TierNetworks) × (split_networks net ≡ ok t)
      × ((a : ℕ) → tally a (tier_list t) ≡ tally a (net ∷ []))
      × (2 * num_addresses t.private ≡ num_addresses net)
      × (4 * num_addresses t.secure ≡ num_addresses net)
      × (8 * num_addresses t.public ≡ num_addresses net)
      × (8 * num_addresses t.management ≡ num_addresses net)
split_networks_tiles net h =
    let rest = second_half net in
    let rest' = second_half rest in
    (
      tiers_of net,
      split_networks-eq net h,
      λ a. tally-tiers_of net a h,
      num_addresses_half net (omega arith),
      omega (arith, num_addresses_half net, num_addresses_half rest),
      omega (arith, num_addresses_half net, num_addresses_half rest, num_addresses_half rest'),
      omega (arith, num_addresses_half net, num_addresses_half rest, num_addresses_half rest'),
    )

subnets_single :
    (net : IpNetwork) → net.prefixlen ≡ net.max_prefixlen → subnets net 1 ≡ ok (net ∷ [])
unfolding subnets
subnets_single net h = ground arith

-- A smaller network has no second half to cut somewhere on the way: the split raises.
pub split_networks_small :
    (net : IpNetwork)
    → net.prefixlen ≤ net.max_prefixlen
    → net.max_prefixlen < net.prefixlen + 3
    → split_networks net ≡ err index_error
unfolding split_networks
split_networks_small net h small = elim (ℕ_discrete net.prefixlen net.max_prefixlen) [
  | yes e ↦ rw (subnets_single net e)
  | no more ↦
      let rest = second_half net in
      rw (subnets_one net (omega arith)) (elim (ℕ_discrete rest.prefixlen net.max_prefixlen) [
        | yes e ↦ rw (subnets_single rest e)
        | no more' ↦
            rw (subnets_one rest (omega arith))
              (rw (subnets_single (second_half rest) (omega arith)))
      ])
]
