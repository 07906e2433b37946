-- ===== src/Spells/Oke/Exposure.antt =====
-- Who reaches the groups of a cluster from outside.
use cloudspells.Common.{
  ◌≡◌, refl, ap, sym, ◌∙◌, append_assoc, append-nil, ℕ, ◌+◌, Option, some, List, [], ◌∷◌, ◌++◌, map,
}
use cloudspells.Common.Text.{Text}
use cloudspells.Naming.{ResourceNamer}
use cloudspells.Rules.{PortRange, internet}
use cloudspells.Nsg.Defs.{Direction, ingress, egress, tcp, tcp_port, tcp_port_range}
use cloudspells.Spells.Oke.Rules.{
  OkeGroup, api, lb, OkePeer, group, cidr, services, OkeRule, oke_rule, kubectl_rules,
  add_api_nsg_rules, add_lb_nsg_rules, add_worker_nsg_rules, add_pod_nsg_rules, api_ingress_rules,
  api_egress_rules,
}
use cloudspells.Spells.Oke.Cluster.{oke_nsg_rules}

-- What a group takes from a peer that is no group of the cluster.
pub record Opening : Type 0 where
  pub nsg : OkeGroup
  pub source : OkePeer
  pub protocol : Text
  pub ports : Option PortRange

abbrev pub opening : OkeGroup → Text → ℕ → Opening
opening nsg source port = record {
  nsg = nsg;
  source = cidr source;
  protocol = tcp;
  ports = some (record { min = port; max = port });
}

abbrev taken : OkeGroup → Direction → OkePeer → Text → Option PortRange → List Opening
taken nsg egress peer protocol ports = []
taken nsg ingress (group g) protocol ports = []
taken nsg ingress (cidr source) protocol ports =
    record { nsg = nsg; source = cidr source; protocol = protocol; ports = ports } ∷ []
taken nsg ingress (services svc) protocol ports =
    record { nsg = nsg; source = services svc; protocol = protocol; ports = ports } ∷ []

-- The openings of the ingress rules, in order.
unfoldable pub openings : List OkeRule → List Opening
openings [] = []
openings (r ∷ rules) = taken r.nsg r.direction r.peer r.protocol r.tcp_options ++ openings rules

openings-append : (xs ys : List OkeRule) → openings (xs ++ ys) ≡ openings xs ++ openings ys
unfolding openings
openings-append [] ys = refl
openings-append (r ∷ xs) ys =
    ap (λ l. taken r.nsg r.direction r.peer r.protocol r.tcp_options ++ l) (openings-append xs ys)
    ∙ sym (append_assoc (taken r.nsg r.direction r.peer r.protocol r.tcp_options) _ _)

openings-kubectl_rules :
    (n : ResourceNamer) (index : ℕ) (cidrs : List Text)
    → openings (kubectl_rules n index cidrs) ≡ map (λ source. opening api source 6443) cidrs
unfolding openings kubectl_rules oke_rule tcp_port
openings-kubectl_rules n index [] = refl
openings-kubectl_rules n index (source ∷ cidrs) =
    ap (λ l. opening api source 6443 ∷ l) (openings-kubectl_rules n (index + 1) cidrs)

openings-others :
    (n : ResourceNamer) (svc : Text)
    → openings (add_lb_nsg_rules n ++ (add_worker_nsg_rules n svc ++ add_pod_nsg_rules n svc))
      ≡ opening lb internet 443 ∷ opening lb internet 80 ∷ []
unfolding openings add_lb_nsg_rules add_worker_nsg_rules add_pod_nsg_rules oke_rule tcp_port
    tcp_port_range
openings-others n svc = refl

openings-add_api_nsg_rules :
    (n : ResourceNamer) (svc : Text) (allowed : List Text)
    → openings (add_api_nsg_rules n svc allowed) ≡ map (λ source. opening api source 6443) allowed
unfolding openings add_api_nsg_rules api_ingress_rules api_egress_rules oke_rule tcp_port
openings-add_api_nsg_rules n svc allowed =
    openings-append (kubectl_rules n 0 allowed) (api_egress_rules n svc)
    ∙ append-nil _
    ∙ openings-kubectl_rules n 0 allowed

-- The groups of a cluster take traffic from outside the cluster exactly so: the API on TCP port 6443
-- from each of the networks that were allowed for `kubectl`, and from no other, and the load balancers
-- from the internet on TCP ports 443 and 80. Every other ingress rule names a group of the cluster.
pub oke_nsg_rules-openings :
    (n : ResourceNamer) (svc : Text) (allowed : List Text)
    → openings (oke_nsg_rules n svc allowed)
      ≡ map (λ source. opening api source 6443) allowed
        ++ (opening lb internet 443 ∷ opening lb internet 80 ∷ [])
unfolding oke_nsg_rules
oke_nsg_rules-openings n svc allowed =
    openings-append (add_api_nsg_rules n svc allowed) _
    ∙ ap
        (λ l.
          l
          ++ openings
              (add_lb_nsg_rules n ++ (add_worker_nsg_rules n svc ++ add_pod_nsg_rules n svc)))
        (openings-add_api_nsg_rules n svc allowed)
    ∙ ap (λ l. map (λ source. opening api source 6443) allowed ++ l) (openings-others n svc)
