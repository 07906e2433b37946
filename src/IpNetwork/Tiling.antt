-- ===== src/IpNetwork/Tiling.antt =====
-- The subnets of a network tile it: each of its addresses lies in exactly one of them.
use native.Mathlib.Nat.{pow-suc}
use cloudspells.Common.{
  ℕ, zero, suc, ◌+◌, ◌-◌, ◌*◌, ◌^◌, ◌≤◌, ◌≡◌, refl, ap, sym, ◌∙◌, Bool-cases, inl, inr, ◌&&◌, List,
  [], ◌∷◌, leb, ltb, ◌==◌, tick, arith, length,
}
use cloudspells.Exec.{ok}
use cloudspells.IpNetwork.{
  IpNetwork, num_addresses, member, tally, range_networks, subnets, subnets_to,
}

-- 1 if the address lies in the `n` addresses from `start` on
abbrev within : ℕ → ℕ → ℕ → ℕ
within start n a = tick (leb start a && ltb a (start + n))

within_split :
    (start m n a : ℕ) → within start m a + within (start + m) n a ≡ within start (m + n) a
within_split start m n a = ground arith

tally-range_networks :
    (count start bits prefix a : ℕ)
    → tally a (range_networks count start (2 ^ (bits - prefix)) bits prefix)
      ≡ within start (count * 2 ^ (bits - prefix)) a
unfolding tally range_networks
tally-range_networks zero start bits prefix a = ground arith
tally-range_networks (suc count) start bits prefix a =
    let size = 2 ^ (bits - prefix) in
    let e : size + count * size ≡ suc count * size = omega arith in
    ap (λ t. within start size a + t) (tally-range_networks count (start + size) bits prefix a)
    ∙ within_split start size (count * size) a
    ∙ ap (λ t. within start t a) e

pow-add : (m n : ℕ) → 2 ^ (m + n) ≡ 2 ^ m * 2 ^ n
pow-add zero n = let e : 0 + n ≡ n = omega arith in rw e (omega arith)
pow-add (suc m) n =
    let e : suc m + n ≡ suc (m + n) = omega arith in
    rw (e, pow-suc 2 (m + n), pow-suc 2 m, pow-add m n) (omega arith)

length-range_networks :
    (count start step bits prefix : ℕ)
    → length (range_networks count start step bits prefix) ≡ count
unfolding range_networks
length-range_networks zero start step bits prefix = refl
length-range_networks (suc count) start step bits prefix =
    ap suc (length-range_networks count (start + step) step bits prefix)

pub num_addresses-split :
    (net : IpNetwork) (diff : ℕ)
    → net.prefixlen + diff ≤ net.max_prefixlen
    → 2 ^ diff * 2 ^ (net.max_prefixlen - (net.prefixlen + diff)) ≡ num_addresses net
num_addresses-split net diff h =
    let e : diff + (net.max_prefixlen - (net.prefixlen + diff))
        ≡ net.max_prefixlen - net.prefixlen =
      omega arith in
    sym (pow-add diff (net.max_prefixlen - (net.prefixlen + diff))) ∙ ap (λ t. 2 ^ t) e

-- The subnets that `subnets` makes by stepping through the network.
abbrev pub parts : IpNetwork → ℕ → List IpNetwork
parts net diff =
    range_networks (2 ^ diff) net.network_address (2 ^ (net.max_prefixlen - (net.prefixlen + diff)))
      net.max_prefixlen (net.prefixlen + diff)

tally-parts :
    (net : IpNetwork) (diff : ℕ) (a : ℕ)
    → net.prefixlen + diff ≤ net.max_prefixlen
    → tally a (parts net diff) ≡ tick (member net a)
tally-parts net diff a h =
    tally-range_networks (2 ^ diff) net.network_address net.max_prefixlen (net.prefixlen + diff) a
    ∙ ap (λ t. within net.network_address t a) (num_addresses-split net diff h)

-- `subnets` succeeds whenever the prefix fits, and lists the parts in order.
pub subnets-eq-parts :
    (net : IpNetwork) (diff : ℕ)
    → net.prefixlen + diff ≤ net.max_prefixlen
    → subnets net diff ≡ ok (parts net diff)
unfolding subnets
subnets-eq-parts net zero h = ground arith
subnets-eq-parts net (suc diff) h = ground arith

pub length-parts : (net : IpNetwork) (diff : ℕ) → length (parts net diff) ≡ 2 ^ diff
length-parts net diff = length-range_networks (2 ^ diff) _ _ _ _

-- Each address of a network lies in exactly one of its subnets, and any other address in none.
pub tally-subnets :
    (net : IpNetwork) (diff : ℕ) {nets : List IpNetwork} (a : ℕ)
    → subnets net diff ≡ ok nets
    → tally a nets ≡ tally a (net ∷ [])
unfolding subnets tally
tally-subnets net diff a e = elim (Bool-cases (net.prefixlen == net.max_prefixlen)) [
  | inl single ↦ ground arith
  | inr more ↦ ground (arith, tally-parts net diff a)
]

pub subnets_to-eq-subnets :
    (net : IpNetwork) (prefix : ℕ)
    → net.prefixlen ≤ prefix
    → subnets_to net prefix ≡ subnets net (prefix - net.prefixlen)
unfolding subnets_to
subnets_to-eq-subnets net prefix h = ground arith
