-- ===== src/Vcn/Routes.antt =====
-- Which gateways a tier's route table leads to.
use cloudspells.Common.{◌≡◌, refl, Bool, true, false, List, [], ◌∷◌, map, ◌&&◌, ◌||◌, arith, not}
use cloudspells.Common.Text.{Text}
use cloudspells.Roles.{SubnetTier, public, private, at_tier}
use cloudspells.Vcn.Defs.{
  Gateway, internet_gateway, nat_gateway, service_gateway, drg, RouteRule, VcnArgs,
  create_route_tables, to_gateway, on_premise_routes,
}

abbrev same_gateway : Gateway → Gateway → Bool
same_gateway internet_gateway internet_gateway = true
same_gateway nat_gateway nat_gateway = true
same_gateway service_gateway service_gateway = true
same_gateway drg drg = true
same_gateway _ _ = false

-- A route of the list goes through the gateway.
pub leads_to : Gateway → List RouteRule → Bool
leads_to g [] = false
leads_to g (r ∷ rs) = same_gateway g r.network_entity || leads_to g rs

abbrev is_empty : List Text → Bool
is_empty [] = true
is_empty (_ ∷ _) = false

-- The architecture: the internet gateway serves the public tier alone, the NAT gateway the private
-- tier alone, and the service gateway and the DRG every tier but the public one, the DRG only
-- where it is enabled and there are on-premise networks.
abbrev pub reachable : VcnArgs → SubnetTier → Gateway → Bool
reachable a public internet_gateway = true
reachable a private nat_gateway = true
reachable a public _ = false
reachable a _ service_gateway = true
reachable a _ drg = a.drg && not (is_empty a.on_premise_cidrs)
reachable a _ _ = false

leads_to-map :
    (g : Gateway) (cidrs : List Text)
    → leads_to g (map (λ cidr. to_gateway cidr drg) cidrs)
      ≡ (same_gateway g drg && not (is_empty cidrs))
unfolding leads_to to_gateway
leads_to-map g [] = ground arith
leads_to-map g (cidr ∷ cidrs) = ground (arith, leads_to-map g cidrs)

leads_to-on_premise :
    (g : Gateway) (a : VcnArgs)
    → leads_to g (on_premise_routes a)
      ≡ (same_gateway g drg && (a.drg && not (is_empty a.on_premise_cidrs)))
unfolding leads_to on_premise_routes
leads_to-on_premise g a = ground (arith, leads_to-map g a.on_premise_cidrs)

-- The route tables follow the architecture, for every tier and gateway.
pub create_route_tables-reachable :
    (a : VcnArgs) (tier : SubnetTier) (g : Gateway)
    → leads_to g (at_tier (create_route_tables a) tier).route_rules ≡ reachable a tier g
unfolding create_route_tables leads_to
create_route_tables-reachable a public internet_gateway = refl
create_route_tables-reachable a public nat_gateway = refl
create_route_tables-reachable a tier g = ground (arith, leads_to-on_premise g a)
