-- ===== src/Spells/Workload.antt =====
-- autoscale.py: `ScalableWorkload`. The availability domains of the compartment are given as a
-- list, numbers that are only passed on are texts, and encoding is a parameter.
use cloudspells.Common.{
  ℕ, Bool, true, false, not, Option, none, some, List, [], ◌∷◌, ◌++◌, map, if◌then◌else◌,
}
use cloudspells.Common.Text.{Text, codes, text_eq}
use cloudspells.Common.Decimal.{str}
use cloudspells.Common.Int.{ℤ}
use cloudspells.Exec.{Exec, Action, value_error, raise, pure, ◌>>=◌, ◌>>◌}
use cloudspells.IpNetwork.{IpText}
use cloudspells.Naming.{ResourceNamer, create_resource_name}
use cloudspells.Roles.{public, private}
use cloudspells.Rules.{internet}
use cloudspells.Vcn.Defs.{Vcn, subnet_cidr, add_security_list_rules, add_unique_security_list_rules}
use cloudspells.Nsg.Roles.{ingress_for}
use cloudspells.Spells.Site.{
  Site, on_own, site_finalize_network, get_subnet_id, ask, tcp_from, tcp_to,
}
use cloudspells.Spells.Keys.{SshKeys, GenerateKeys, setup_ssh_keys}
use cloudspells.Spells.LoadBalancer.{
  LoadBalancerResource, BackendSet, Listener, new_backend_set, new_listener, forwards,
}
use cloudspells.Spells.Scaling.{
  ScalingPolicy, metric_policy, default_metric_policy, Sizes, AutoScalingConfiguration,
  create_autoscaling,
}

pub record OciLoadBalancerConfig : Type 0 where
  pub backend_port : ℕ
  pub health_check_path : Text
  pub is_public : Bool
  pub ssl_certificate_name : Option Text
  pub min_bandwidth_mbps : ℕ
  pub max_bandwidth_mbps : ℕ

-- `OciLoadBalancerConfig()`
abbrev pub default_load_balancer_config : OciLoadBalancerConfig
default_load_balancer_config = record {
  backend_port = 80;
  health_check_path = codes "/health";
  is_public = true;
  ssl_certificate_name = none;
  min_bandwidth_mbps = 10;
  max_bandwidth_mbps = 100;
}

pub data Script : Type 0 where
  text_script : Text → Script
  bytes_script : Text → Script

-- `str.encode` and `base64.b64encode(…).decode`
pub record Encoding : Type 0 where
  pub encode : Text → Text
  pub b64encode : Text → Text

pub data PolicyArg : Type 0 where
  unset : PolicyArg
  given : Option ScalingPolicy → PolicyArg

pub record WorkloadArgs : Type 0 where
  pub namer : ResourceNamer
  pub image_id : Text
  pub shape : Text
  pub ocpus : Text
  pub memory_in_gbs : Text
  pub ssh_public_key : Option Text
  pub cloud_init_script : Option Script
  pub boot_volume_size_in_gbs : Text
  pub min_instances : ℤ
  pub max_instances : ℤ
  pub initial_instances : Option ℤ
  pub load_balancer_config : Option OciLoadBalancerConfig
  pub scaling_policy : PolicyArg

pub record InstanceConfiguration : Type 0 where
  pub display_name : Text
  pub shape : Text
  pub ocpus : Text
  pub memory_in_gbs : Text
  pub image_id : Text
  pub boot_volume_size_in_gbs : Text
  pub assign_public_ip : Bool
  pub subnet_id : Text
  pub ssh_authorized_keys : Text
  pub user_data : Option Text

pub record InstancePool : Type 0 where
  pub display_name : Text
  pub instance_configuration : Text
  pub size : ℤ
  pub placement_configurations : List (Text × Text)
  pub backend_set_name : Text
  pub port : ℕ

pub record ScalableWorkload : Type 0 where
  pub sizes : Sizes
  pub ssh_keys : SshKeys
  pub load_balancer : LoadBalancerResource
  pub backend_set : BackendSet
  pub listeners : List Listener
  pub instance_configuration : InstanceConfiguration
  pub instance_pool : InstancePool
  pub autoscaling_configuration : Option AutoScalingConfiguration

abbrev pub config_of : WorkloadArgs → OciLoadBalancerConfig
config_of a = elim a.load_balancer_config [
  | none ↦ default_load_balancer_config
  | some config ↦ config
]

unfoldable pub sizes_of : WorkloadArgs → Sizes
sizes_of a = record {
  min_instances = a.min_instances;
  max_instances = a.max_instances;
  initial_instances = elim a.initial_instances [ none ↦ a.min_instances | some n ↦ n ];
}

abbrev policy_of : PolicyArg → Option ScalingPolicy
policy_of unset = some (metric_policy default_metric_policy)
policy_of (given policy) = policy

-- `script.startswith("#!")`
abbrev pub starts_shebang : Text → Bool
starts_shebang (a ∷ b ∷ s) = text_eq (a ∷ b ∷ []) (codes "#!")
starts_shebang _ = false

-- The check and the encoding of the script.
unfoldable pub encoded_script : Encoding → Option Script → Exec Site (Option Text)
encoded_script e none = pure none
encoded_script e (some (text_script [])) = pure (some (e.b64encode (e.encode [])))
encoded_script e (some (text_script (c ∷ s))) =
    if starts_shebang (c ∷ s)
    then pure (some (e.b64encode (e.encode (c ∷ s))))
    else raise value_error
encoded_script e (some (bytes_script s)) = pure (some (e.b64encode s))

public_workload_rules : OciLoadBalancerConfig → Action Vcn
unfolding forwards
public_workload_rules c v =
    (do
      add_unique_security_list_rules (codes "public-ingress-tcp-80") (
          ingress_for public
            (tcp_from internet 80 80 (codes "HTTP traffic from internet to load balancer") ∷ []))
      add_unique_security_list_rules (codes "public-ingress-tcp-443") (
          ingress_for public
            (tcp_from internet 443 443 (codes "HTTPS traffic from internet to load balancer") ∷ []))
      add_security_list_rules (
          forwards
            (tcp_to (subnet_cidr v private) c.backend_port c.backend_port (
              codes "Load balancer forwards traffic to backend instances on port "
              ++ str c.backend_port))
            (tcp_from (subnet_cidr v public) c.backend_port c.backend_port
              (codes "Traffic from load balancer to application on port " ++ str c.backend_port))))
      v

internal_workload_rules : OciLoadBalancerConfig → Action Vcn
internal_workload_rules c v =
    add_security_list_rules
      (ingress_for private (
        tcp_from v.block 80 80 (codes "HTTP traffic from VCN to internal load balancer")
        ∷ tcp_from v.block 443 443 (codes "HTTPS traffic from VCN to internal load balancer")
        ∷ tcp_from v.block c.backend_port c.backend_port
            (codes "Traffic from VCN to application on port " ++ str c.backend_port)
        ∷ []))
      v

-- `_add_scalable_workload_security_rules`, on a `Vcn`
unfoldable pub workload_security_rules : OciLoadBalancerConfig → Action Vcn
unfolding public_workload_rules internal_workload_rules
workload_security_rules c v =
    if c.is_public then public_workload_rules c v else internal_workload_rules c v

https_listeners : ResourceNamer → Option Text → List Listener
https_listeners n none = []
https_listeners n (some []) = []
https_listeners n (some (c ∷ s)) =
    new_listener n (codes "listener-https") 443 (codes "HTTPS") (some (c ∷ s)) [] ∷ []

-- `_create_load_balancer`
unfoldable pub workload_load_balancer :
    ResourceNamer → OciLoadBalancerConfig → Text → LoadBalancerResource
workload_load_balancer n c subnet_id = record {
  display_name = create_resource_name n (codes "lb");
  minimum_bandwidth_in_mbps = c.min_bandwidth_mbps;
  maximum_bandwidth_in_mbps = c.max_bandwidth_mbps;
  subnet_id = subnet_id;
  is_private = not c.is_public;
}

unfoldable pub workload_listeners : ResourceNamer → OciLoadBalancerConfig → List Listener
unfolding https_listeners
workload_listeners n c =
    new_listener n (codes "listener-http") 80 (codes "HTTP") none []
    ∷ https_listeners n c.ssl_certificate_name

-- `if self.cloud_init_script:`
abbrev if_any : Option Text → Option Text
if_any (some (c ∷ s)) = some (c ∷ s)
if_any _ = none

-- `_create_instance_configuration`
unfoldable pub instance_configuration :
    WorkloadArgs → Text → SshKeys → Option Text → InstanceConfiguration
instance_configuration a subnet_id keys script = record {
  display_name = create_resource_name a.namer (codes "ic");
  shape = a.shape;
  ocpus = a.ocpus;
  memory_in_gbs = a.memory_in_gbs;
  image_id = a.image_id;
  boot_volume_size_in_gbs = a.boot_volume_size_in_gbs;
  assign_public_ip = false;
  subnet_id = subnet_id;
  ssh_authorized_keys = keys.ssh_public_key;
  user_data = if_any script;
}

-- `_create_instance_pool`
unfoldable pub instance_pool : WorkloadArgs → List Text → Text → InstancePool
unfolding sizes_of
instance_pool a ads subnet_id = record {
  display_name = create_resource_name a.namer (codes "pool");
  instance_configuration = create_resource_name a.namer (codes "ic");
  size = (sizes_of a).initial_instances;
  placement_configurations = map (λ (ad : Text). (ad, subnet_id)) ads;
  backend_set_name = create_resource_name a.namer (codes "bs");
  port = (config_of a).backend_port;
}

-- `ScalableWorkload(…)`
unfoldable pub new_scalable_workload :
    IpText → GenerateKeys → Encoding → List Text → WorkloadArgs → Exec Site ScalableWorkload
unfolding encoded_script workload_security_rules workload_load_balancer workload_listeners
    instance_configuration instance_pool sizes_of
new_scalable_workload ip generate encoding ads a = do
  let config = config_of a
  script ← encoded_script encoding a.cloud_init_script
  let keys = setup_ssh_keys generate a.namer a.ssh_public_key
  on_own (workload_security_rules config)
  site_finalize_network ip
  public_id ← ask (get_subnet_id public)
  private_id ← ask (get_subnet_id private)
  pure (record {
    sizes = sizes_of a;
    ssh_keys = keys;
    load_balancer =
        workload_load_balancer a.namer config (if config.is_public then public_id else private_id);
    backend_set = new_backend_set a.namer config.backend_port config.health_check_path;
    listeners = workload_listeners a.namer config;
    instance_configuration = instance_configuration a private_id keys script;
    instance_pool = instance_pool a ads private_id;
    autoscaling_configuration =
        create_autoscaling (create_resource_name a.namer (codes "asc")) (sizes_of a)
          (policy_of a.scaling_policy);
  })
