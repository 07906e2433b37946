-- ===== src/Spells/Effects.antt =====
-- What each spell does to a live network is a sequence of calls of the network's methods.
use cloudspells.Common.{
  refl, ℕ, Bool, true, false, not, Option, none, some, List, [], ◌∷◌, arith, Bool-cases, inl, inr,
}
use cloudspells.Common.Text.{Text}
use cloudspells.Exec.{◌>>◌, Action, raise_if, value_error, lift, pure}
use cloudspells.IpNetwork.{IpText}
use cloudspells.Roles.{SubnetTier, public, private, secure, management}
use cloudspells.Rules.{SlRules}
use cloudspells.Vcn.Defs.{Vcn, subnet_cidr, add_security_list_rules, add_unique_security_list_rules}
use cloudspells.Spells.Site.{
  on_own, site_add_security_list_rules, public_subnet_cidr, private_subnet_cidr, get_subnet_id,
}
use cloudspells.Spells.Compose.{
  IsCalls, still, IsCalls-bind, add-IsCalls, add_unique-IsCalls, IsPlaced, Looks, Looks-ask,
  Looks-bind, Looks-there, pick-IsCalls,
}
use cloudspells.Volume.{VolumeSpec}
use cloudspells.Spells.Keys.{GenerateKeys}
use cloudspells.Spells.LoadBalancer.{
  LoadBalancerArgs, in_port_range, lb_security_rules, ilb_security_rules, new_load_balancer,
  new_internal_load_balancer,
}
use cloudspells.Spells.Bastion.{
  BastionArgs, bastion_security_rules, ensure_bastion_rule, given_cidrs, new_bastion,
}
use cloudspells.Spells.Compute.{
  ComputeArgs, checked_volumes, compute_security_rules, ssh_if_open, assert_subnets_ready,
  new_compute_instance, placement,
}
use cloudspells.Spells.Workload.{
  OciLoadBalancerConfig, Encoding, Script, text_script, bytes_script, WorkloadArgs, config_of,
  encoded_script, workload_security_rules, new_scalable_workload,
}
use cloudspells.Spells.Oke.Lists.{oke_security_lists_rules}
use cloudspells.Spells.Oke.Cluster.{
  ClusterType, OkeArgs, allowed_cidrs_of, cluster_on_site, add_oke_security_lists_rules,
  build_cluster,
}

-- The rules of a cluster on a live network.
unfoldable pub cluster_rules : Text → OkeArgs → Action Vcn
cluster_rules svc a v =
    add_security_list_rules
      (oke_security_lists_rules (subnet_cidr v public) (subnet_cidr v private) svc
        (allowed_cidrs_of a.kubectl_allowed_cidrs))
      v

module _ (ip : IpText) where
  -- Ambient rules, then the rules of the spell.
  one_ambient-IsCalls :
      (f : Text) (r s : SlRules) (v : Vcn)
      → IsCalls ip (do add_unique_security_list_rules f r; add_security_list_rules s) v
  one_ambient-IsCalls f r s v =
      IsCalls-bind ip (add_unique_security_list_rules f r)
        (λ (_ : Unit {0}). add_security_list_rules s) v (add_unique-IsCalls ip f r v)
        (λ _ w. add-IsCalls ip s w)

  two_ambient-IsCalls :
      (f g : Text) (q r s : SlRules) (v : Vcn)
      → IsCalls ip
          (do
            add_unique_security_list_rules f q
            add_unique_security_list_rules g r
            add_security_list_rules s)
          v
  two_ambient-IsCalls f g q r s v =
      IsCalls-bind ip (add_unique_security_list_rules f q)
        (λ (_ : Unit {0}). do add_unique_security_list_rules g r; add_security_list_rules s) v
        (add_unique-IsCalls ip f q v) (λ _ w. one_ambient-IsCalls g r s w)

  pub lb_rules-IsCalls : (port : ℕ) (v : Vcn) → IsCalls ip (lb_security_rules port) v
  unfolding lb_security_rules
  lb_rules-IsCalls port v = two_ambient-IsCalls _ _ _ _ _ v

  pub ilb_rules-IsCalls : (port : ℕ) (v : Vcn) → IsCalls ip (ilb_security_rules port) v
  unfolding ilb_security_rules
  ilb_rules-IsCalls port v = one_ambient-IsCalls _ _ _ v

  pub workload_rules-IsCalls :
      (c : OciLoadBalancerConfig) (v : Vcn) → IsCalls ip (workload_security_rules c) v
  unfolding workload_security_rules
  workload_rules-IsCalls c v =
      pick-IsCalls ip c.is_public _ _ v (two_ambient-IsCalls _ _ _ _ _ v) (add-IsCalls ip _ v)

  pub bastion_rule-IsCalls : (v : Vcn) → IsCalls ip ensure_bastion_rule v
  unfolding ensure_bastion_rule bastion_security_rules
  bastion_rule-IsCalls v =
      pick-IsCalls ip v.security_lists_finalized _ _ v (still ip v) (add_unique-IsCalls ip _ _ v)

  pub ssh_rule-IsCalls : (tier : SubnetTier) (v : Vcn) → IsCalls ip (ssh_if_open tier) v
  unfolding ssh_if_open compute_security_rules
  ssh_rule-IsCalls tier v = elim (Bool-cases v.security_lists_finalized) [
    | inl e ↦ simp e (still ip v)
    | inr e ↦ simp e (add_unique-IsCalls ip _ _ v)
  ]

  pub raise_if-Looks : (b : Bool) → Looks (raise_if b value_error)
  raise_if-Looks true s = refl
  raise_if-Looks false s = refl

  unfoldable pub new_load_balancer-IsPlaced :
      (a : LoadBalancerArgs) → IsPlaced ip (new_load_balancer ip a)
  unfolding new_load_balancer
  new_load_balancer-IsPlaced a = record {
    Checked = Unit {0};
    guard = raise_if (not (in_port_range a.backend_port)) value_error;
    rules = λ _. lb_security_rules a.backend_port;
    look = _;
    shape = λ v. refl;
    guard_looks = raise_if-Looks (not (in_port_range a.backend_port));
    rules_calls = λ _ v. lb_rules-IsCalls a.backend_port v;
    look_looks = λ _. Looks-ask (get_subnet_id public) _ (λ _ s. refl);
  }

  pub new_internal_load_balancer-IsPlaced :
      (a : LoadBalancerArgs) → IsPlaced ip (new_internal_load_balancer ip a)
  unfolding new_internal_load_balancer
  new_internal_load_balancer-IsPlaced a = record {
    Checked = Unit {0};
    guard = raise_if (not (in_port_range a.backend_port)) value_error;
    rules = λ _. ilb_security_rules a.backend_port;
    look = _;
    shape = λ v. refl;
    guard_looks = raise_if-Looks (not (in_port_range a.backend_port));
    rules_calls = λ _ v. ilb_rules-IsCalls a.backend_port v;
    look_looks = λ _. Looks-ask (get_subnet_id private) _ (λ _ s. refl);
  }

  given-Looks : (cidrs : Option (List Text)) → Looks (given_cidrs cidrs)
  given-Looks none s = refl
  given-Looks (some cidrs) s = refl

  pub new_bastion-IsPlaced : (a : BastionArgs) → IsPlaced ip (new_bastion ip a)
  unfolding new_bastion
  new_bastion-IsPlaced a = record {
    Checked = List Text;
    guard = given_cidrs a.allowed_client_cidrs;
    rules = λ _. ensure_bastion_rule;
    look = _;
    shape = λ v. refl;
    guard_looks = given-Looks a.allowed_client_cidrs;
    rules_calls = λ _ v. bastion_rule-IsCalls v;
    look_looks = λ _. Looks-ask (get_subnet_id private) _ (λ _ s. refl);
  }

  assert_subnets_ready-Looks : Looks assert_subnets_ready
  unfolding assert_subnets_ready
  assert_subnets_ready-Looks =
      Looks-there private _ λ _.
        Looks-there public _ λ _. Looks-there secure _ λ _. Looks-there management _ λ _ s. refl

  pub new_compute_instance-IsPlaced :
      (generate : GenerateKeys) (b64encode : Text → Text) (a : ComputeArgs)
      → IsPlaced ip (new_compute_instance ip generate b64encode a)
  unfolding new_compute_instance
  new_compute_instance-IsPlaced generate b64encode a = record {
    Checked = List VolumeSpec;
    guard = lift (checked_volumes a.volumes);
    rules = λ _. ssh_if_open (placement a.nsg a.subnet);
    look = _;
    shape = λ v. refl;
    guard_looks = λ s. refl;
    rules_calls = λ _ v. ssh_rule-IsCalls (placement a.nsg a.subnet) v;
    look_looks = λ _. Looks-bind assert_subnets_ready _ assert_subnets_ready-Looks (λ _ s. refl);
  }

  pub encoded-Looks : (e : Encoding) (script : Option Script) → Looks (encoded_script e script)
  unfolding encoded_script
  encoded-Looks e none s = refl
  encoded-Looks e (some (text_script [])) s = refl
  encoded-Looks e (some (text_script (c ∷ t))) s = ground arith
  encoded-Looks e (some (bytes_script t)) s = refl

  unfoldable pub new_scalable_workload-IsPlaced :
      (generate : GenerateKeys) (e : Encoding) (ads : List Text) (a : WorkloadArgs)
      → IsPlaced ip (new_scalable_workload ip generate e ads a)
  unfolding new_scalable_workload
  new_scalable_workload-IsPlaced generate e ads a = record {
    Checked = Option Text;
    guard = encoded_script e a.cloud_init_script;
    rules = λ _. workload_security_rules (config_of a);
    look = _;
    shape = λ v. refl;
    guard_looks = encoded-Looks e a.cloud_init_script;
    rules_calls = λ _ v. workload_rules-IsCalls (config_of a) v;
    look_looks = λ _.
        Looks-ask (get_subnet_id public) _ (λ _. Looks-ask (get_subnet_id private) _ (λ _ s. refl));
  }

  pub cluster_on_site-Looks :
      (svc : Text) (ads : List (Option Text)) (type : ClusterType) (a : OkeArgs)
      → Looks (cluster_on_site svc ads type a)
  unfolding cluster_on_site
  cluster_on_site-Looks svc ads type a = Looks-there public _ λ _. Looks-there private _ λ _ s. refl

  unfoldable pub build_cluster-IsPlaced :
      (svc : Text) (ads : List (Option Text)) (type : ClusterType) (a : OkeArgs)
      → IsPlaced ip (build_cluster ip svc ads type a)
  unfolding build_cluster add_oke_security_lists_rules site_add_security_list_rules on_own
      cluster_rules public_subnet_cidr private_subnet_cidr
  build_cluster-IsPlaced svc ads type a = record {
    Checked = Unit {0};
    guard = pure tt;
    rules = λ _. cluster_rules svc a;
    look = λ _. cluster_on_site svc ads type a;
    shape = λ v. refl;
    guard_looks = λ s. refl;
    rules_calls = λ _ v. add-IsCalls ip _ v;
    look_looks = λ _. cluster_on_site-Looks svc ads type a;
  }
