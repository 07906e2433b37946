-- ===== src/Spells/Outputs.antt =====
-- The methods `export` of the spells, in loadbalancer.py, bastion.py, compute.py, autoscale.py,
-- kubernetes.py, storage.py, iam.py and network_logging.py, with the accessors that they use. What the provider assigns
-- to a resource of a name, as its id, is a parameter.
pub mod Keys
pub mod Volumes
pub mod Secrets
use cloudspells.Common.{
  Bool, true, false, ◌==◌, Option, none, some, List, [], ◌∷◌, ◌++◌, map, if◌then◌else◌,
}
use cloudspells.Common.Text.{Text, codes, text_eq}
use cloudspells.Naming.{ResourceNamer, create_resource_name}
use cloudspells.Nsg.Roles.{is_public}
use cloudspells.Volume.{VolumeSpec}
use cloudspells.Vcn.Defs.{VcnFlowLogs, SecurityList}
use cloudspells.Storage.{Storage}
use cloudspells.Iam.{Principal}
use cloudspells.Spells.Site.{Site, vcn, vcn_ref}
use cloudspells.Spells.Keys.{SshKeys}
use cloudspells.Spells.LoadBalancer.{LoadBalancerResource}
use cloudspells.Spells.Bastion.{Bastion}
use cloudspells.Spells.Compute.{BlockVolume, ComputeInstance}
use cloudspells.Spells.Workload.{ScalableWorkload}
use cloudspells.Spells.Oke.Cluster.{OkeCluster}

-- The attributes of a resource, by its name.
pub record Assigned : Type 0 where
  pub id : Text → Text
  pub private_ip : Text → Text
  pub public_ip : Text → Text
  pub fault_domain : Text → Text
  pub private_endpoint_ip_address : Text → Text
  pub ip_address_details : Text → List (Option Text)
  pub public_endpoint : Text → Text
  pub kubeconfig : Text → Text

pub record Output : Type 0 where
  pub value : Text
  pub is_secret : Bool

abbrev pub Exports : Type 0
Exports = List (Text × Output)

abbrev pub plain : Text → Output
plain value = record { value = value; is_secret = false }

-- `pulumi.Output.secret(value)`
abbrev pub secret : Text → Output
secret value = record { value = value; is_secret = true }

abbrev pub found_or : Option Output → Option Output → Option Output
found_or none earlier = earlier
found_or (some o) earlier = some o

-- What a stack shows under a key: `pulumi.export` of a key again replaces the value.
unfoldable pub read_output : Exports → Text → Option Output
read_output [] key = none
read_output ((k, o) ∷ exports) key =
    found_or (read_output exports key) (if text_eq k key then some o else none)

-- `name.replace("-", "_")`
unfoldable pub underscored : Text → Text
underscored [] = []
underscored (c ∷ s) = (if c == b'-' then b'_' else c) ∷ underscored s

-- `f"{prefix}_{suffix}"`
unfoldable pub output_key : ResourceNamer → Text → Text
output_key n suffix = underscored n.resource_name ++ (b'_' ∷ suffix)

-- `get_lb_ip`: the first address, or an empty text.
unfoldable pub first_ip : List (Option Text) → Text
first_ip [] = []
first_ip (none ∷ details) = []
first_ip (some ip ∷ details) = ip

unfoldable pub export_load_balancer : Assigned → ResourceNamer → LoadBalancerResource → Exports
unfolding output_key first_ip
export_load_balancer at n lb =
    (output_key n (codes "lb_id"), plain (at.id lb.display_name))
    ∷ (output_key n (codes "lb_ip"), plain (first_ip (at.ip_address_details lb.display_name)))
    ∷ []

unfoldable pub export_bastion : Assigned → ResourceNamer → Bastion → Exports
unfolding output_key
export_bastion at n b =
    (output_key n (codes "bastion_id"), plain (at.id b.name))
    ∷ (output_key n (codes "bastion_endpoint"), plain (at.private_endpoint_ip_address b.name))
    ∷ []

-- `if self.auto_generated_keys and self.ssh_private_key`
unfoldable pub key_outputs : ResourceNamer → SshKeys → Exports
unfolding output_key
key_outputs n keys =
    if keys.auto_generated_keys
    then elim keys.ssh_private_key [
      | none ↦ []
      | some [] ↦ []
      | some (c ∷ s) ↦ (output_key n (codes "ssh_private_key"), secret (c ∷ s)) ∷ []
    ]
    else []

unfoldable pub volume_key : Text → Text
volume_key label = label ++ codes "_volume_id"

-- The loop over the specs and the volumes.
unfoldable pub volume_outputs :
    Assigned → ResourceNamer → List VolumeSpec → List BlockVolume → Exports
unfolding output_key volume_key
volume_outputs at n [] volumes = []
volume_outputs at n (spec ∷ specs) [] = []
volume_outputs at n (spec ∷ specs) (vol ∷ volumes) =
    (output_key n (volume_key spec.label), plain (at.id vol.display_name))
    ∷ volume_outputs at n specs volumes

-- The outputs before the volumes.
unfoldable pub instance_outputs : Assigned → ResourceNamer → ComputeInstance → Exports
unfolding output_key
instance_outputs at n c =
    let name = c.instance.display_name in
    (output_key n (codes "id"), plain (at.id name))
    ∷ (output_key n (codes "private_ip"), plain (at.private_ip name))
    ∷ ((if is_public c.subnet
          then (output_key n (codes "public_ip"), plain (at.public_ip name)) ∷ []
          else [])
        ++ ((output_key n (codes "availability_domain"), plain c.instance.availability_domain)
            ∷ (output_key n (codes "shape"), plain c.instance.shape)
            ∷ (output_key n (codes "fault_domain"), plain (at.fault_domain name))
            ∷ []))

-- The public key is a secret where the pair was generated.
unfoldable pub ssh_outputs : ResourceNamer → SshKeys → Exports
unfolding output_key key_outputs
ssh_outputs n keys =
    (
      output_key n (codes "ssh_public_key"),
      record { value = keys.ssh_public_key; is_secret = keys.auto_generated_keys },
    )
    ∷ key_outputs n keys

unfoldable pub export_compute_instance : Assigned → ResourceNamer → ComputeInstance → Exports
unfolding instance_outputs volume_outputs ssh_outputs
export_compute_instance at n c =
    instance_outputs at n c
    ++ (volume_outputs at n c.volumes_spec c.block_volumes ++ ssh_outputs n c.ssh_keys)

unfoldable pub get_all_volume_ids : Assigned → ComputeInstance → List Text
get_all_volume_ids at c = map (λ (vol : BlockVolume). at.id vol.display_name) c.block_volumes

unfoldable pub export_scalable_workload : Assigned → ResourceNamer → ScalableWorkload → Exports
unfolding output_key first_ip key_outputs
export_scalable_workload at n w =
    let name = w.load_balancer.display_name in
    (output_key n (codes "lb_ip"), plain (first_ip (at.ip_address_details name)))
    ∷ (output_key n (codes "lb_id"), plain (at.id name))
    ∷ (output_key n (codes "pool_id"), plain (at.id w.instance_pool.display_name))
    ∷ key_outputs n w.ssh_keys

-- The kubeconfig needs a real cluster: a preview does not export it.
unfoldable pub export_oke_cluster : Assigned → Bool → ResourceNamer → OkeCluster → Exports
unfolding output_key
export_oke_cluster at is_dry_run n o =
    let lb_nsg = create_resource_name n (codes "lb-nsg") in
    (output_key n (codes "cluster_id"), plain (at.id o.cluster.name))
    ∷ (output_key n (codes "cluster_endpoint"), plain (at.public_endpoint o.cluster.name))
    ∷ (output_key n (codes "kubernetes_version"), plain o.cluster.kubernetes_version)
    ∷ (output_key n (codes "lb_nsg_id"), plain (at.id lb_nsg))
    ∷ (if is_dry_run
        then []
        else (output_key n (codes "kubeconfig"), secret (at.kubeconfig o.cluster.name)) ∷ [])

unfoldable pub export_flow_logs : Assigned → ResourceNamer → VcnFlowLogs → Exports
unfolding output_key
export_flow_logs at n logs =
    (output_key n (codes "log_group_id"), plain (at.id logs.log_group)) ∷ []

unfoldable pub export_bucket : Storage → Exports
unfolding output_key
export_bucket s = (output_key s.base.namer (codes "bucket_name"), plain s.bucket.name) ∷ []

-- A principal has a dynamic group.
unfoldable pub export_principal : Assigned → Principal → Exports
unfolding output_key
export_principal at p =
    (output_key p.base.namer (codes "dynamic_group_id"), plain (at.id p.group.name))
    ∷ (output_key p.base.namer (codes "policy_id"), plain (at.id p.policy.name))
    ∷ []

unfoldable pub export_admin_group : Assigned → Principal → Exports
unfolding output_key
export_admin_group at p =
    (output_key p.base.namer (codes "group_id"), plain (at.id p.group.name))
    ∷ (output_key p.base.namer (codes "policy_id"), plain (at.id p.policy.name))
    ∷ []

-- The id of a list of the network, if it has the list: for a `VcnRef`, the list is its id.
abbrev listed : Option Text → List Text
listed none = []
listed (some id) = id ∷ []

abbrev list_of : Option SecurityList → Option Text
list_of none = none
list_of (some sl) = some sl.display_name

unfoldable pub get_public_security_list_ids : Assigned → Site → List Text
get_public_security_list_ids at (vcn v) = map at.id (listed (list_of v.security_lists.at_public))
get_public_security_list_ids at (vcn_ref ref) = listed ref.public_security_list

unfoldable pub get_private_security_list_ids : Assigned → Site → List Text
get_private_security_list_ids at (vcn v) = map at.id (listed (list_of v.security_lists.at_private))
get_private_security_list_ids at (vcn_ref ref) = listed ref.private_security_list
