-- ===== src/Spells/Oke/Cluster.antt =====
-- Building a cluster: `_build_cluster`, its node pools, and `get_ads` of
-- packages/cloudspells-oci/src/cloudspells/providers/oci/helper.py. The availability domains of
-- the compartment and the CIDR of the services are arguments.
use cloudspells.Common.{
  ℕ, ◌+◌, Bool, true, false, ◌||◌, Option, none, some, List, [], ◌∷◌, ◌++◌, if◌then◌else◌,
}
use cloudspells.Common.Text.{Text, codes}
use cloudspells.Common.Int.{ℤ, int_str}
use cloudspells.Exec.{Exec, Action, Result, ok, err, runtime_error, pure, ◌>>=◌, ◌>>◌}
use cloudspells.IpNetwork.{IpText}
use cloudspells.Naming.{ResourceNamer, create_resource_name, ordinal_suffix}
use cloudspells.Roles.{public, private}
use cloudspells.Spells.Site.{
  Site, site_add_security_list_rules, site_finalize_network, public_subnet_cidr,
  private_subnet_cidr, there,
}
use cloudspells.Spells.Oke.Lists.{oke_security_lists_rules}
use cloudspells.Spells.Oke.Rules.{
  OkeRule, add_api_nsg_rules, add_lb_nsg_rules, add_worker_nsg_rules, add_pod_nsg_rules,
}

pub record NodePoolConfig : Type 0 where
  pub name : Text
  pub shape : Text
  pub image : Text
  pub node_count : ℤ
  pub ocpus : Text
  pub memory_in_gbs : Text
  pub ssh_public_key : Option Text
  pub boot_volume_size_in_gbs : Option ℤ
  pub initial_node_labels : List (Text × Text)
  pub node_metadata : Option (List (Text × Text))
  pub eviction_grace_duration : Option Text
  pub force_delete_after_grace : Bool
  pub cycling_enabled : Bool
  pub cycling_max_surge : Option Text
  pub cycling_max_unavailable : Option Text

pub record NodePool : Type 0 where
  pub name : Text
  pub pool_label : Text
  pub placement_configs : Result (List (Text × Text))
  pub size : ℤ
  pub pod_subnet_id : Text
  pub nsg : Text
  pub pod_nsg : Text
  pub kubernetes_version : Text
  pub shape : Text
  pub memory_in_gbs : Text
  pub ocpus : Text
  pub image_id : Text
  pub boot_volume_size_in_gbs : Option Text
  pub initial_node_labels : List (Text × Text)
  pub node_metadata : Option (List (Text × Text))
  pub eviction : Option (Option Text × Bool)
  pub cycling : Option (Option Text × Option Text)
  pub ssh_public_key : Option Text

pub record Cluster : Type 0 where
  pub name : Text
  pub kubernetes_version : Text
  pub type : Text
  pub service_lb_subnet_id : Text
  pub pods_cidr : Text
  pub services_cidr : Text
  pub endpoint_subnet_id : Text
  pub is_public_ip_enabled : Bool
  pub endpoint_nsg : Text

pub record OkeArgs : Type 0 where
  pub namer : ResourceNamer
  pub kubernetes_version : Text
  pub node_pools : List NodePoolConfig
  pub kubectl_allowed_cidrs : Option (List Text)

pub record OkeCluster : Type 0 where
  pub kubectl_allowed_cidrs : List Text
  pub nsg_rules : List OkeRule
  pub cluster : Cluster
  pub node_pools : List NodePool

-- `_CLUSTER_TYPE` of `OkeCluster` and of `OkeClusterEnhanced`
pub data ClusterType : Type 0 where
  basic_cluster enhanced_cluster : ClusterType

abbrev type_text : ClusterType → Text
type_text basic_cluster = codes "BASIC_CLUSTER"
type_text enhanced_cluster = codes "ENHANCED_CLUSTER"

-- `get_ads`: a domain without a name is an error.
unfoldable pub get_ads : List (Option Text) → Text → Result (List (Text × Text))
get_ads [] subnet_id = ok []
get_ads (none ∷ ads) subnet_id = err runtime_error
get_ads (some [] ∷ ads) subnet_id = err runtime_error
get_ads (some (c ∷ s) ∷ ads) subnet_id = elim (get_ads ads subnet_id) [
  | ok result ↦ ok ((c ∷ s, subnet_id) ∷ result)
  | err e ↦ err e
]

abbrev pub allowed_cidrs_of : Option (List Text) → List Text
allowed_cidrs_of none = []
allowed_cidrs_of (some cidrs) = cidrs

-- `cfg.ssh_public_key or None`
abbrev or_none : Option Text → Option Text
or_none (some (c ∷ s)) = some (c ∷ s)
or_none _ = none

abbrev is_given : Option Text → Bool
is_given none = false
is_given (some _) = true

abbrev group_of : OkeArgs → Text → Text
group_of a suffix = create_resource_name a.namer suffix

unfoldable pub node_pool : OkeArgs → List (Option Text) → Text → ℕ → NodePoolConfig → NodePool
unfolding get_ads
node_pool a ads subnet_id index c = record {
  name = create_resource_name a.namer (ordinal_suffix (codes "pool") index);
  pool_label = c.name;
  placement_configs = get_ads ads subnet_id;
  size = c.node_count;
  pod_subnet_id = subnet_id;
  nsg = group_of a (codes "worker-nsg");
  pod_nsg = group_of a (codes "pod-nsg");
  kubernetes_version = a.kubernetes_version;
  shape = c.shape;
  memory_in_gbs = c.memory_in_gbs;
  ocpus = c.ocpus;
  image_id = c.image;
  boot_volume_size_in_gbs = elim c.boot_volume_size_in_gbs [
    | none ↦ none
    | some size ↦ some (int_str size)
  ];
  initial_node_labels = c.initial_node_labels;
  node_metadata = c.node_metadata;
  eviction =
      if is_given c.eviction_grace_duration || c.force_delete_after_grace
      then some (c.eviction_grace_duration, c.force_delete_after_grace)
      else none;
  cycling =
      if c.cycling_enabled then some (c.cycling_max_surge, c.cycling_max_unavailable) else none;
  ssh_public_key = or_none c.ssh_public_key;
}

unfoldable pub node_pools_from :
    OkeArgs → List (Option Text) → Text → ℕ → List NodePoolConfig → List NodePool
unfolding node_pool
node_pools_from a ads subnet_id index [] = []
node_pools_from a ads subnet_id index (c ∷ configs) =
    node_pool a ads subnet_id index c ∷ node_pools_from a ads subnet_id (index + 1) configs

unfoldable pub new_cluster : OkeArgs → ClusterType → Text → Cluster
new_cluster a type public_id = record {
  name = create_resource_name a.namer (codes "cluster");
  kubernetes_version = a.kubernetes_version;
  type = type_text type;
  service_lb_subnet_id = public_id;
  pods_cidr = codes "10.244.0.0/16";
  services_cidr = codes "10.96.0.0/16";
  endpoint_subnet_id = public_id;
  is_public_ip_enabled = true;
  endpoint_nsg = group_of a (codes "api-nsg");
}

-- `_create_oke_nsgs`: the rules in the order in which they are declared.
unfoldable pub oke_nsg_rules : ResourceNamer → Text → List Text → List OkeRule
oke_nsg_rules n svc allowed_cidrs =
    add_api_nsg_rules n svc allowed_cidrs
    ++ (add_lb_nsg_rules n ++ (add_worker_nsg_rules n svc ++ add_pod_nsg_rules n svc))

-- `_add_oke_security_lists_rules`, on a `Vcn` or a `VcnRef`
unfoldable pub add_oke_security_lists_rules : Text → List Text → Action Site
add_oke_security_lists_rules svc allowed_cidrs s =
    site_add_security_list_rules
      (oke_security_lists_rules (public_subnet_cidr s) (private_subnet_cidr s) svc allowed_cidrs) s

-- The part of `_build_cluster` behind `finalize_network`.
unfoldable pub cluster_on_site :
    Text → List (Option Text) → ClusterType → OkeArgs → Exec Site OkeCluster
cluster_on_site svc ads type a = do
  public_id ← there public
  private_id ← there private
  pure (record {
    kubectl_allowed_cidrs = allowed_cidrs_of a.kubectl_allowed_cidrs;
    nsg_rules = oke_nsg_rules a.namer svc (allowed_cidrs_of a.kubectl_allowed_cidrs);
    cluster = new_cluster a type public_id;
    node_pools = node_pools_from a ads private_id 0 a.node_pools;
  })

-- `OkeCluster(…)` and `OkeClusterEnhanced(…)`
unfoldable pub build_cluster :
    IpText → Text → List (Option Text) → ClusterType → OkeArgs → Exec Site OkeCluster
unfolding add_oke_security_lists_rules
build_cluster ip svc ads type a = do
  add_oke_security_lists_rules svc (allowed_cidrs_of a.kubectl_allowed_cidrs)
  site_finalize_network ip
  cluster_on_site svc ads type a
