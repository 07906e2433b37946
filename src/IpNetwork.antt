-- ===== src/IpNetwork.antt =====
-- The part of Python's `ipaddress` that the spells use: an IPv4 or IPv6 network, and `subnets`.
-- An address is its integer value. Reading and printing texts are a parameter, `IpText`.
pub mod Tiling
use cloudspells.Common.{
  ℕ, zero, suc, ◌+◌, ◌-◌, ◌*◌, ◌^◌, ◌≤◌, ◌<◌, Bool, ◌&&◌, List, [], ◌∷◌, leb, ltb, ◌==◌, tick,
  if◌then◌else◌,
}
use cloudspells.Common.Text.{Text}
use cloudspells.Exec.{Result, ok, err, value_error}

-- `max_prefixlen` is 32 for IPv4 and 128 for IPv6.
pub record IpNetwork : Type 0 where
  pub max_prefixlen : ℕ
  pub network_address : ℕ
  pub prefixlen : ℕ

abbrev pub num_addresses : IpNetwork → ℕ
num_addresses net = 2 ^ (net.max_prefixlen - net.prefixlen)

-- `a in net`
abbrev pub member : IpNetwork → ℕ → Bool
member net a = leb net.network_address a && ltb a (net.network_address + num_addresses net)

-- How many of the networks hold the address.
unfoldable pub tally : ℕ → List IpNetwork → ℕ
tally a [] = 0
tally a (net ∷ nets) = tick (member net a) + tally a nets

-- `ip_network(…, strict=True)` and `str`, as far as texts go.
pub record IpText : Type 0 where
  pub ip_network : Text → Result IpNetwork
  pub to_text : IpNetwork → Text

-- `range(start, start + count * step, step)`, each with the new prefix length.
unfoldable pub range_networks : ℕ → ℕ → ℕ → ℕ → ℕ → List IpNetwork
range_networks zero start step bits prefix = []
range_networks (suc count) start step bits prefix =
    record { max_prefixlen = bits; network_address = start; prefixlen = prefix }
    ∷ range_networks count (start + step) step bits prefix

-- `list(net.subnets(prefixlen_diff=diff))`. A network of one address yields itself.
unfoldable pub subnets : IpNetwork → ℕ → Result (List IpNetwork)
unfolding range_networks
subnets net diff =
    let prefix = net.prefixlen + diff in
    if net.prefixlen == net.max_prefixlen
    then ok (net ∷ [])
    else if ltb net.max_prefixlen prefix
    then err value_error
    else ok (
        range_networks (2 ^ diff) net.network_address (2 ^ (net.max_prefixlen - prefix))
          net.max_prefixlen prefix)

-- `list(net.subnets(new_prefix=prefix))`
unfoldable pub subnets_to : IpNetwork → ℕ → Result (List IpNetwork)
unfolding subnets
subnets_to net prefix =
    if net.prefixlen == net.max_prefixlen
    then ok (net ∷ [])
    else if ltb prefix net.prefixlen
    then err value_error
    else subnets net (prefix - net.prefixlen)
