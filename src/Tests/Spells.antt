-- ===== src/Tests/Spells.antt =====
-- Spells on the network of the other tests, and on an imported one.
use cloudspells.Common.{
  ◌≡◌, refl, ℕ, true, false, none, some, List, [], ◌∷◌, map, get_elem?, All, ◌++◌,
}
use cloudspells.Common.Text.{Text, codes, text_eq, contains}
use cloudspells.Common.Int.{pos, negsuc}
use cloudspells.Exec.{Error, ok, err, key_error}
use cloudspells.Naming.{ResourceNamer}
use cloudspells.Roles.{private}
use cloudspells.Rules.{SlRules, extend, internet}
use cloudspells.Volume.{VolumeSpec}
use cloudspells.Vcn.Defs.{
  Vcn, initial_vcn, add_security_list_rules, add_unique_security_list_rules, has_ambient_rule,
  subnet_id,
}
use cloudspells.Vcn.FlowLogs.{valid_retention, new_flow_logs}
use cloudspells.Vcn.Finalize.{finalize_network, seal, attach_flow_logs}
use cloudspells.Vcn.Collect.{
  add_unique, finalize, call, calls, with_rules, IsConsistent, calls-IsConsistent,
}
use cloudspells.VcnRef.{VcnRef}
use cloudspells.Spells.Site.{vcn, vcn_ref, on_own, site_finalize_network, get_subnet_id, subnet_of}
use cloudspells.Spells.LoadBalancer.{LoadBalancerArgs, lb_security_rules, new_load_balancer}
use cloudspells.Spells.Keys.{setup_ssh_keys}
use cloudspells.Spells.Compute.{
  ComputeArgs, ComputeInstance, new_instance, attach_block_volumes, new_compute_instance,
  checked_volumes, placement, resolve_subnet_id, assert_subnets_ready, get_volume,
  get_volume_attachment, block_volume, volume_attachment, count_label, some_twice,
}
use cloudspells.Spells.Compute.Volumes.{volumes_by_label}
use cloudspells.Spells.Oke.Cluster.{OkeArgs, basic_cluster, oke_nsg_rules}
use cloudspells.Spells.Oke.Mirror.{IsAnswered, oke_nsg_rules-IsAnswered}
use cloudspells.Spells.Oke.Exposure.{openings, opening, oke_nsg_rules-openings}
use cloudspells.Spells.Oke.Rules.{api, lb}
use cloudspells.Spells.Scaling.{
  Sizes, ScalingPolicy, schedule_policy, change_count_by, change_count_to, PoolPolicy,
  create_autoscaling,
}
use cloudspells.Spells.Scaling.Bounds.{IsOrdered, policies_of, create_autoscaling-IsOrdered}
use cloudspells.Spells.Deploy.{
  World, load_balancer, oke_cluster, Step, cast, on_network, run, deploy, deploy-IsConsistent,
}
use cloudspells.Spells.Deploy.Closed.{closed_outcome, closed_network}
use cloudspells.Spells.Deploy.Returned.{finalize_closes, opens, single_opening}
use cloudspells.Spells.Deploy.Imported.{imported_outcome, imported_network}
use cloudspells.Spells.Deploy.Forward.{IsEntrance, entrance, forwards_traffic}
use cloudspells.Tests.Networks.{ip_text, lab, made_cidrs, made, web, web_rules}
use cloudspells.Tests.Imports.{made_ref}

abbrev pub shop : ResourceNamer
shop = record { stack_name = codes "prod"; resource_name = codes "shop" }

abbrev fresh : Vcn
fresh = initial_vcn lab (codes "10.0.0.0/18") made_cidrs

abbrev pub earth : World
earth = record {
  ip = ip_text;
  generate = λ stack name. (codes "public", codes "private");
  encoding = record { encode = λ s. s; b64encode = λ s. s };
  b64encode = λ s. s;
  svc_cidr = codes "all-fra-services";
  domains = codes "AD-1" ∷ [];
  cluster_domains = some (codes "AD-1") ∷ none ∷ [];
}

abbrev front : LoadBalancerArgs
front = record {
  namer = shop;
  certificate_name = codes "cert";
  backend_port = 8080;
  health_check_path = codes "/health";
}

abbrev pods : OkeArgs
pods = record {
  namer = shop;
  kubernetes_version = codes "v1";
  node_pools = [];
  kubectl_allowed_cidrs = some (codes "198.51.100.0/24" ∷ []);
}

abbrev program : List Step
program =
    on_network (add_unique web web_rules)
    ∷ cast (load_balancer front)
    ∷ cast (oke_cluster basic_cluster pods)
    ∷ []

deploy-IsConsistent_example :
    (v : Vcn) × (deploy earth program (vcn fresh) ≡ vcn v)
    × IsConsistent v
    × ((more : SlRules) × (v.rules ≡ extend fresh.rules more))
deploy-IsConsistent_example = deploy-IsConsistent earth lab program made

abbrev built : Vcn
built = calls ip_text (finalize ∷ []) fresh

built_closed : built.security_lists_finalized ≡ true
unfolding calls call
built_closed = finalize_closes ip_text fresh

closed_network_example :
    ((run earth (load_balancer front) (vcn built)).0
      ≡ closed_outcome earth (load_balancer front) built)
    × ((seen : List Text) × ((run earth (load_balancer front) (vcn built)).1
          ≡ vcn (with_rules built built.rules seen)))
closed_network_example =
    closed_network earth (load_balancer front) built built_closed
      (calls-IsConsistent ip_text lab (finalize ∷ []) made)

front_returns : (run earth (load_balancer front) (vcn fresh)).0 ≡ ok tt
unfolding run new_load_balancer lb_security_rules on_own site_finalize_network get_subnet_id
    subnet_id finalize_network add_unique_security_list_rules add_security_list_rules
    has_ambient_rule contains initial_vcn new_flow_logs valid_retention text_eq codes seal
    attach_flow_logs
front_returns = refl

single_opening_example :
    (e : Error) × ((run earth
        (oke_cluster basic_cluster pods)
        (deploy earth program (run earth (load_balancer front) (vcn fresh)).1)).0
      ≡ err e)
unfolding opens calls
single_opening_example =
    single_opening earth (load_balancer front) (oke_cluster basic_cluster pods) program fresh
      (calls-IsConsistent ip_text lab [] made) front_returns refl

imported_network_example :
    run earth (oke_cluster basic_cluster pods) (vcn_ref made_ref)
    ≡ (imported_outcome earth (oke_cluster basic_cluster pods) made_ref, vcn_ref made_ref)
imported_network_example = imported_network earth (oke_cluster basic_cluster pods) made_ref

forwards_traffic_example : IsEntrance (run earth (load_balancer front) (vcn fresh)).1 8080
unfolding entrance
forwards_traffic_example =
    forwards_traffic earth (load_balancer front) fresh 8080 front_returns refl

abbrev office : List Text
office = codes "198.51.100.0/24" ∷ []

oke_nsg_rules-IsAnswered_example :
    All
      (IsAnswered (oke_nsg_rules shop (codes "svc") office))
      (oke_nsg_rules shop (codes "svc") office)
oke_nsg_rules-IsAnswered_example = oke_nsg_rules-IsAnswered shop (codes "svc") office

oke_nsg_rules-openings_example :
    openings (oke_nsg_rules shop (codes "svc") office)
    ≡ map (λ source. opening api source 6443) office
      ++ (opening lb internet 443 ∷ opening lb internet 80 ∷ [])
oke_nsg_rules-openings_example = oke_nsg_rules-openings shop (codes "svc") office

abbrev sizes : Sizes
sizes = record { min_instances = pos 2; max_instances = pos 6; initial_instances = pos 3 }

abbrev schedule : ScalingPolicy
schedule = schedule_policy (
    record {
      cron_expression = codes "0 8 * * 1-5";
      action = change_count_to;
      value = pos 10;
      display_name = codes "morning";
    }
    ∷ record {
      cron_expression = codes "0 20 * * 1-5";
      action = change_count_by;
      value = negsuc 4;
      display_name = codes "evening";
    }
    ∷ [])

create_autoscaling-IsOrdered_example :
    All
      (λ (p : PoolPolicy). IsOrdered p.capacity)
      (policies_of (create_autoscaling (codes "asc") sizes (some schedule)))
create_autoscaling-IsOrdered_example =
    create_autoscaling-IsOrdered (codes "asc") sizes (some schedule) refl refl

abbrev pub whole_ref : VcnRef
whole_ref = record made_ref { management_subnet = some (codes "sn4") }

abbrev spec : Text → VolumeSpec
spec label = record {
  size_in_gbs = pos 100;
  label = label;
  vpus_per_gb = pos 10;
  is_read_only = false;
  device = none;
}

abbrev specs : List VolumeSpec
specs = spec (codes "data") ∷ spec (codes "logs") ∷ []

abbrev pub node : ComputeArgs
node = record {
  namer = shop;
  image_id = codes "image";
  availability_domain = codes "AD-1";
  ssh_public_key = some (codes "key");
  shape = codes "VM.Standard.E4.Flex";
  ocpus = codes "1";
  memory_in_gbs = codes "16";
  subnet = private;
  boot_volume_size_in_gbs = codes "50";
  volumes = some specs;
  nsg = none;
  user_data = none;
  fault_domain = none;
  hostname_label = none;
}

abbrev pub machine : ComputeInstance
machine =
    let keys = setup_ssh_keys earth.generate shop node.ssh_public_key in
    record {
      subnet = private;
      volumes_spec = specs;
      ssh_keys = keys;
      instance = new_instance node earth.b64encode private (codes "sn2") keys;
      block_volumes = map (λ p. p.0) (attach_block_volumes node 0 specs);
      volume_attachments = map (λ p. p.1) (attach_block_volumes node 0 specs);
    }

pub machine_made :
    (new_compute_instance ip_text earth.generate earth.b64encode node (vcn_ref whole_ref)).0
    ≡ ok machine
unfolding new_compute_instance checked_volumes some_twice count_label on_own site_finalize_network
    assert_subnets_ready subnet_of text_eq codes placement resolve_subnet_id
machine_made = refl

volumes_by_label_example :
    ((i : ℕ) (spec : VolumeSpec)
      → get_elem? specs i ≡ some spec
      → (get_volume machine spec.label ≡ ok (block_volume node i spec))
        × (get_volume_attachment machine spec.label ≡ ok (volume_attachment node i spec)))
    × ((label : Text)
        → count_label specs label ≡ 0
        → (get_volume machine label ≡ err key_error)
          × (get_volume_attachment machine label ≡ err key_error))
volumes_by_label_example =
    volumes_by_label ip_text earth.generate earth.b64encode node (vcn_ref whole_ref) machine_made
