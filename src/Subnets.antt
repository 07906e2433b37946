-- ===== src/Subnets.antt =====
-- Address plans: `Vcn._split_tiers` of
-- packages/cloudspells-oci/src/cloudspells/providers/oci/network.py and `Helper.calculate_subnets`
-- of packages/cloudspells-core/src/cloudspells/core/helper.py.
pub mod Tiers
pub mod Calculate
use cloudspells.Common.{
  ℕ, zero, suc, ◌+◌, ◌-◌, ◌^◌, Option, none, some, List, [], ◌∷◌, map, ltb, get_elem?, take,
  if◌then◌else◌,
}
use cloudspells.Common.Text.{Text}
use cloudspells.Exec.{Result, ok, err, index_error}
use cloudspells.IpNetwork.{IpNetwork, IpText, subnets, subnets_to}

infixl 5 ◌>>=◌
abbrev ◌>>=◌ : {A B : Type 0} → Result A → (A → Result B) → Result B
ok a >>= f = f a
err e >>= f = err e

-- `xs[i]`
abbrev pub item : {A : Type 0} → List A → ℕ → Result A
item xs i = elim (get_elem? xs i) [ none ↦ err index_error | some x ↦ ok x ]

-- The four networks before they are printed, in ascending address order.
pub record TierNetworks : Type 0 where
  pub private : IpNetwork
  pub secure : IpNetwork
  pub public : IpNetwork
  pub management : IpNetwork

unfoldable pub split_networks : IpNetwork → Result TierNetworks
split_networks net = do
  halves ← subnets net 1
  private ← item halves 0
  rest ← item halves 1
  quarters ← subnets rest 1
  secure ← item quarters 0
  rest' ← item quarters 1
  eighths ← subnets rest' 1
  public ← item eighths 0
  management ← item eighths 1
  ok (record { private = private; secure = secure; public = public; management = management })

pub record SubnetCidrs : Type 0 where
  pub public : Text
  pub private : Text
  pub secure : Text
  pub management : Text

unfoldable pub split_tiers : IpText → Text → Result SubnetCidrs
unfolding split_networks
split_tiers ip cidr = do
  net ← ip.ip_network cidr
  tiers ← split_networks net
  ok (record {
    public = ip.to_text tiers.public;
    private = ip.to_text tiers.private;
    secure = ip.to_text tiers.secure;
    management = ip.to_text tiers.management;
  })

-- The `while` loop: the first prefix, from `new_prefix` on, that makes enough subnets.
pub grow_prefix : ℕ → ℕ → ℕ → ℕ → ℕ
grow_prefix zero prefixlen num new_prefix = new_prefix
grow_prefix (suc fuel) prefixlen num new_prefix =
    let next = grow_prefix fuel prefixlen num (new_prefix + 1) in
    if ltb (2 ^ (new_prefix - prefixlen)) num then next else new_prefix

-- The subnets before they are printed. `num` rounds are enough for the loop.
unfoldable pub calculate_networks : IpNetwork → ℕ → Result (List IpNetwork)
unfolding grow_prefix
calculate_networks net num = do
  let new_prefix = grow_prefix num net.prefixlen num net.prefixlen
  nets ← subnets_to net new_prefix
  ok (take num nets)

unfoldable pub calculate_subnets : IpText → Text → ℕ → Result (List Text)
unfolding calculate_networks
calculate_subnets ip cidr num = do
  supernet ← ip.ip_network cidr
  nets ← calculate_networks supernet num
  ok (map ip.to_text nets)
