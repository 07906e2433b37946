-- ===== src/Tests/Outputs.antt =====
-- What the instance of the other tests exports.
use cloudspells.Common.{◌≡◌, refl, Bool, Option, some, [], ◌∷◌, ◌++◌}
use cloudspells.Common.Text.{Text, codes}
use cloudspells.Spells.Site.{vcn_ref}
use cloudspells.Spells.Compute.{ComputeInstance, get_volume}
use cloudspells.Spells.Workload.{ScalableWorkload}
use cloudspells.Spells.Oke.Cluster.{OkeCluster}
use cloudspells.Spells.Outputs.{
  Assigned, read_output, output_key, volume_key, underscored, export_compute_instance,
  export_scalable_workload, export_oke_cluster,
}
use cloudspells.Spells.Outputs.Volumes.{shown, export-get_volume}
use cloudspells.Spells.Outputs.Secrets.{in_clear, with_private_key, private_keys_stay_secret}
use cloudspells.Tests.Networks.{ip_text}
use cloudspells.Tests.Spells.{shop, earth, node, machine, machine_made, whole_ref}

abbrev assigned : Assigned
assigned = record {
  id = λ name. codes "ocid1." ++ name;
  private_ip = λ name. codes "10.0.0.7";
  public_ip = λ name. codes "203.0.113.7";
  fault_domain = λ name. codes "FAULT-DOMAIN-1";
  private_endpoint_ip_address = λ name. codes "10.0.0.8";
  ip_address_details = λ name. some (codes "203.0.113.9") ∷ [];
  public_endpoint = λ name. codes "203.0.113.10:6443";
  kubeconfig = λ name. codes "kind: Config";
}

abbrev data_label : Text
data_label = codes "data"

export-get_volume_example :
    read_output
      (export_compute_instance assigned shop machine)
      (output_key shop (volume_key data_label))
    ≡ shown assigned (get_volume machine data_label)
export-get_volume_example =
    export-get_volume ip_text earth.generate earth.b64encode node (vcn_ref whole_ref) machine_made
      assigned shop data_label

-- A name with a hyphen has a key with an underscore.
web_app_key :
    output_key (record { stack_name = codes "prod"; resource_name = codes "web-app" }) (codes "id")
    ≡ codes "web_app_id"
unfolding output_key underscored codes
web_app_key = refl

-- A load balancer `web` and an instance `web-lb` export under one key.
same_key :
    output_key (record { stack_name = codes "prod"; resource_name = codes "web" }) (codes "lb_id")
    ≡ output_key (record { stack_name = codes "prod"; resource_name = codes "web-lb" }) (codes "id")
unfolding output_key underscored codes
same_key = refl

private_keys_stay_secret_example :
    ((c : ComputeInstance) (k : Option Text)
      → in_clear (
          export_compute_instance assigned shop
            (record c { ssh_keys = with_private_key c.ssh_keys k }))
        ≡ in_clear (export_compute_instance assigned shop c))
    × ((w : ScalableWorkload) (k : Option Text)
        → in_clear (
            export_scalable_workload assigned shop
              (record w { ssh_keys = with_private_key w.ssh_keys k }))
          ≡ in_clear (export_scalable_workload assigned shop w))
    × ((is_dry_run : Bool) (o : OkeCluster) (f : Text → Text)
        → in_clear (export_oke_cluster (record assigned { kubeconfig = f }) is_dry_run shop o)
          ≡ in_clear (export_oke_cluster assigned is_dry_run shop o))
private_keys_stay_secret_example = private_keys_stay_secret assigned shop
