-- ===== src/Tests/Addresses.antt =====
-- Address plans and names at concrete inputs.
use cloudspells.Common.{ℕ, ◌*◌, ◌≡◌, List, [], ◌∷◌, arith, ◌==◌, if◌then◌else◌}
use cloudspells.Common.Text.{codes}
use cloudspells.Exec.{ok, err, value_error}
use cloudspells.IpNetwork.{IpNetwork, tally, num_addresses}
use cloudspells.Subnets.{TierNetworks, split_networks, calculate_networks}
use cloudspells.Subnets.Tiers.{split_networks_tiles, tier_list}
use cloudspells.Subnets.Calculate.{IsPlan, calculate_networks-IsPlan, calculate_networks_short}
use cloudspells.Naming.{ResourceNamer}

-- 10.0.0.0/18
abbrev pub net : IpNetwork
net = record { max_prefixlen = 32; network_address = 167772160; prefixlen = 18 }

abbrev small : IpNetwork
small = record { max_prefixlen = 32; network_address = 167772160; prefixlen = 30 }

abbrev single : IpNetwork
single = record { max_prefixlen = 32; network_address = 167772160; prefixlen = 32 }

split_networks_tiles_example :
    (t : TierNetworks) × (split_networks net ≡ ok t)
    × ((a : ℕ) → tally a (tier_list t) ≡ tally a (net ∷ []))
    × (2 * num_addresses t.private ≡ num_addresses net)
    × (4 * num_addresses t.secure ≡ num_addresses net)
    × (8 * num_addresses t.public ≡ num_addresses net)
    × (8 * num_addresses t.management ≡ num_addresses net)
split_networks_tiles_example = split_networks_tiles net (omega arith)

calculate_networks-IsPlan_example :
    (nets : List IpNetwork) × (calculate_networks net 3 ≡ ok nets) × IsPlan net 3 nets
calculate_networks-IsPlan_example = calculate_networks-IsPlan net 3 (omega arith) (omega arith)

calculate_networks_short_example :
    calculate_networks single 2
    ≡ (if single.prefixlen == single.max_prefixlen then ok (single ∷ []) else err value_error)
calculate_networks_short_example = calculate_networks_short single 2 (omega arith) (omega arith)

abbrev web_namer : ResourceNamer
web_namer = record { stack_name = codes "prod"; resource_name = codes "web" }

abbrev seventh : ℕ
seventh = 7
