-- ===== src/Spells/LoadBalancer.antt =====
-- loadbalancer.py: `LoadBalancer` and `InternalLoadBalancer`.
use cloudspells.Common.{
  ℕ, Bool, true, false, not, ◌&&◌, Option, none, some, List, [], ◌∷◌, ◌++◌, leb,
}
use cloudspells.Common.Text.{Text, codes}
use cloudspells.Common.Decimal.{str}
use cloudspells.Exec.{Exec, Action, value_error, raise_if, pure, ◌>>=◌, ◌>>◌}
use cloudspells.IpNetwork.{IpText}
use cloudspells.Naming.{ResourceNamer, create_resource_name}
use cloudspells.Roles.{public, private}
use cloudspells.Rules.{SlRules, SlIngress, SlEgress, no_rules, internet}
use cloudspells.Vcn.Defs.{Vcn, subnet_cidr, add_security_list_rules, add_unique_security_list_rules}
use cloudspells.Nsg.Roles.{ingress_for, egress_for}
use cloudspells.Spells.Site.{
  Site, on_own, site_finalize_network, get_subnet_id, ask, tcp_from, tcp_to,
}

-- The resources, as they are declared.
pub record LoadBalancerResource : Type 0 where
  pub display_name : Text
  pub minimum_bandwidth_in_mbps : ℕ
  pub maximum_bandwidth_in_mbps : ℕ
  pub subnet_id : Text
  pub is_private : Bool

pub record BackendSet : Type 0 where
  pub name : Text
  pub policy : Text
  pub protocol : Text
  pub port : ℕ
  pub url_path : Text
  pub interval_ms : ℕ
  pub timeout_in_millis : ℕ
  pub retries : ℕ

pub record Listener : Type 0 where
  pub name : Text
  pub default_backend_set_name : Text
  pub port : ℕ
  pub protocol : Text
  pub certificate_name : Option Text
  pub rule_set_names : List Text

pub record RedirectRuleSet : Type 0 where
  pub name : Text
  pub response_code : ℕ
  pub protocol : Text
  pub port : ℕ

pub record LoadBalancer : Type 0 where
  pub load_balancer : LoadBalancerResource
  pub backend_set : BackendSet
  pub redirect_rule_set : RedirectRuleSet
  pub listeners : List Listener

pub record InternalLoadBalancer : Type 0 where
  pub load_balancer : LoadBalancerResource
  pub backend_set : BackendSet
  pub listener : Listener

-- The arguments. A port is a number that is not negative.
pub record LoadBalancerArgs : Type 0 where
  pub namer : ResourceNamer
  pub certificate_name : Text
  pub backend_port : ℕ
  pub health_check_path : Text

abbrev pub in_port_range : ℕ → Bool
in_port_range port = leb 1 port && leb port 65535

-- Traffic from the public tier to the private one: a rule on both sides.
unfoldable pub forwards : SlEgress → SlIngress → SlRules
forwards out back = record (no_rules {I = SlIngress} {E = SlEgress}) {
  public_egress = out ∷ [];
  private_ingress = back ∷ [];
}

-- `LoadBalancer._add_security_rules`
unfoldable pub lb_security_rules : ℕ → Action Vcn
unfolding forwards
lb_security_rules port v =
    (do
      add_unique_security_list_rules (codes "lb-public-ingress-tcp-80") (
          ingress_for public
            (tcp_from internet 80 80 (codes "HTTP traffic from internet to load balancer") ∷ []))
      add_unique_security_list_rules (codes "lb-public-ingress-tcp-443") (
          ingress_for public
            (tcp_from internet 443 443 (codes "HTTPS traffic from internet to load balancer") ∷ []))
      add_security_list_rules (
          forwards
            (tcp_to (subnet_cidr v private) port port
              (codes "Load balancer forwards traffic to backend instances on port " ++ str port))
            (tcp_from (subnet_cidr v public) port port
              (codes "Traffic from load balancer to backend instances on port " ++ str port))))
      v

-- `InternalLoadBalancer._add_security_rules`
unfoldable pub ilb_security_rules : ℕ → Action Vcn
ilb_security_rules port v =
    (do
      add_unique_security_list_rules (codes "lb-private-ingress-tcp-80") (
          ingress_for private (
            tcp_from v.block 80 80
              (codes "HTTP traffic to internal load balancer from VCN-internal sources only")
            ∷ []))
      add_security_list_rules (
          egress_for private (
            tcp_to (subnet_cidr v private) port port (
              codes "Internal load balancer forwards traffic to backend instances on port "
              ++ str port)
            ∷ [])))
      v

load_balancer_resource : LoadBalancerArgs → Text → Bool → LoadBalancerResource
load_balancer_resource a subnet_id is_private = record {
  display_name = create_resource_name a.namer (codes "lb");
  minimum_bandwidth_in_mbps = 10;
  maximum_bandwidth_in_mbps = 100;
  subnet_id = subnet_id;
  is_private = is_private;
}

-- `backend_set`, also of `ScalableWorkload`
unfoldable pub new_backend_set : ResourceNamer → ℕ → Text → BackendSet
new_backend_set namer port health_check_path = record {
  name = create_resource_name namer (codes "bs");
  policy = codes "ROUND_ROBIN";
  protocol = codes "HTTP";
  port = port;
  url_path = health_check_path;
  interval_ms = 10000;
  timeout_in_millis = 3000;
  retries = 3;
}

-- A listener that forwards to the backend set of the spell.
unfoldable pub new_listener : ResourceNamer → Text → ℕ → Text → Option Text → List Text → Listener
new_listener namer suffix port protocol certificate_name rule_set_names = record {
  name = create_resource_name namer suffix;
  default_backend_set_name = create_resource_name namer (codes "bs");
  port = port;
  protocol = protocol;
  certificate_name = certificate_name;
  rule_set_names = rule_set_names;
}

redirect_rule_set : LoadBalancerArgs → RedirectRuleSet
redirect_rule_set a = record {
  name = create_resource_name a.namer (codes "rs-redirect");
  response_code = 301;
  protocol = codes "HTTPS";
  port = 443;
}

https_listener : LoadBalancerArgs → Listener
https_listener a =
    new_listener a.namer (codes "listener-https") 443 (codes "HTTPS") (some a.certificate_name) []

http_listener : LoadBalancerArgs → List Text → Listener
http_listener a rule_sets =
    new_listener a.namer (codes "listener-http") 80 (codes "HTTP") none rule_sets

-- `LoadBalancer(…)`
unfoldable pub new_load_balancer : IpText → LoadBalancerArgs → Exec Site LoadBalancer
unfolding lb_security_rules load_balancer_resource redirect_rule_set https_listener http_listener
new_load_balancer ip a = do
  raise_if (not (in_port_range a.backend_port)) value_error
  on_own (lb_security_rules a.backend_port)
  site_finalize_network ip
  subnet_id ← ask (get_subnet_id public)
  pure (record {
    load_balancer = load_balancer_resource a subnet_id false;
    backend_set = new_backend_set a.namer a.backend_port a.health_check_path;
    redirect_rule_set = redirect_rule_set a;
    listeners = https_listener a ∷ http_listener a ((redirect_rule_set a).name ∷ []) ∷ [];
  })

-- `InternalLoadBalancer(…)`, which takes no certificate
unfoldable pub new_internal_load_balancer :
    IpText → LoadBalancerArgs → Exec Site InternalLoadBalancer
unfolding ilb_security_rules load_balancer_resource http_listener
new_internal_load_balancer ip a = do
  raise_if (not (in_port_range a.backend_port)) value_error
  on_own (ilb_security_rules a.backend_port)
  site_finalize_network ip
  subnet_id ← ask (get_subnet_id private)
  pure (record {
    load_balancer = load_balancer_resource a subnet_id true;
    backend_set = new_backend_set a.namer a.backend_port a.health_check_path;
    listener = http_listener a [];
  })
