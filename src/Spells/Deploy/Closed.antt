-- ===== src/Spells/Deploy/Closed.antt =====
-- What each spell does on a live network that is finalized already.
use cloudspells.Common.{
  Option-cases, ◌≡◌, refl, ap, ◌∙◌, Bool, true, false, not, none, some, List, [], Bool-cases, inl,
  inr, if◌then◌else◌,
}
use cloudspells.Common.Text.{Text}
use cloudspells.Exec.{
  Exec, Action, Result, Result-cases, ok, err, value_error, runtime_error, raise_if,
}
use cloudspells.IpNetwork.{IpText}
use cloudspells.Roles.{SubnetTier, public, private, secure, management}
use cloudspells.Rules.{no_rules}
use cloudspells.Vcn.Defs.{Vcn, add_security_list_rules, has_ambient_rule, subnet_id}
use cloudspells.Vcn.Lifecycle.{finalized_is_frozen}
use cloudspells.Vcn.Collect.{with_rules, IsConsistent}
use cloudspells.Spells.Site.{
  Site, vcn, on_own, site_finalize_network, get_subnet_id, subnet_of, site_add_security_list_rules,
}
use cloudspells.Spells.Compose.{placed}
use cloudspells.Spells.LoadBalancer.{in_port_range, new_load_balancer, new_internal_load_balancer}
use cloudspells.Spells.Bastion.{BastionArgs, bastion_fingerprint, ensure_bastion_rule, new_bastion}
use cloudspells.Spells.Compute.{
  ComputeArgs, checked_volumes, ssh_if_open, assert_subnets_ready, new_compute_instance,
}
use cloudspells.Spells.Workload.{new_scalable_workload, config_of}
use cloudspells.Spells.Oke.Cluster.{add_oke_security_lists_rules, build_cluster}
use cloudspells.Spells.Deploy.{
  World, Spell, load_balancer, internal_load_balancer, bastion, compute_instance, scalable_workload,
  oke_cluster, run, void, forget, run-IsSiteCalls,
}
use cloudspells.Spells.Deploy.Refused.{
  calls_closed, subnets_there, accepts_script, lb_rules_closed, ilb_rules_closed,
  workload_rules_closed, script_cases,
}

-- The result of each spell, from its arguments and what the network has recorded.
unfoldable pub closed_outcome : World → Spell → Vcn → Result (Unit {0})
closed_outcome w (load_balancer a) v =
    if in_port_range a.backend_port then err runtime_error else err value_error
closed_outcome w (internal_load_balancer a) v =
    if in_port_range a.backend_port then err runtime_error else err value_error
closed_outcome w (bastion a) v = elim a.allowed_client_cidrs [
  | none ↦ err value_error
  | some cidrs ↦ if has_ambient_rule v bastion_fingerprint then ok tt else err runtime_error
]
closed_outcome w (compute_instance a) v = void (checked_volumes a.volumes)
closed_outcome w (scalable_workload a) v =
    if accepts_script a.cloud_init_script then err runtime_error else err value_error
closed_outcome w (oke_cluster type a) v = err runtime_error

checked_closed :
    {A : Type 0} (ip : IpText) (b : Bool) (rules : Action Vcn) (look : Exec Site A) (v : Vcn)
    → (rules v).0 ≡ err runtime_error
    → (forget
        (placed ip (raise_if (not b) value_error) (λ (_ : Unit {0}). rules) (λ _. look))
        (vcn v)).0
      ≡ (if b then err runtime_error else err value_error)
unfolding on_own
checked_closed ip true rules look v h = rw h refl
checked_closed ip false rules look v h = refl

bastion_closed :
    (w : World) (a : BastionArgs) (v : Vcn)
    → v.security_lists_finalized ≡ true
    → IsConsistent v
    → (run w (bastion a) (vcn v)).0 ≡ closed_outcome w (bastion a) v
unfolding run closed_outcome new_bastion ensure_bastion_rule on_own site_finalize_network
    get_subnet_id subnet_id
bastion_closed w a v closed h = elim (Option-cases a.allowed_client_cidrs) [
  | inl e ↦ simp e refl
  | inr (cidrs, e) ↦ elim (Bool-cases (has_ambient_rule v bastion_fingerprint)) [
    | inl old ↦
        let (subnet, there) = subnets_there v private closed h in
        let frozen = (finalized_is_frozen w.ip v [] no_rules no_rules closed).0 in
        simp (e, closed, old, frozen) (rw there refl)
    | inr new ↦ simp (e, closed, new) refl
  ]
]

compute_closed :
    (w : World) (a : ComputeArgs) (v : Vcn)
    → v.security_lists_finalized ≡ true
    → IsConsistent v
    → (run w (compute_instance a) (vcn v)).0 ≡ closed_outcome w (compute_instance a) v
unfolding run closed_outcome new_compute_instance ssh_if_open on_own site_finalize_network
    assert_subnets_ready subnet_of
compute_closed w a v closed h = elim (Result-cases (checked_volumes a.volumes)) [
  | inr (x, e) ↦ rw e refl
  | inl (specs, e) ↦
      let there = λ (tier : SubnetTier). (subnets_there v tier closed h).1 in
      let frozen = (finalized_is_frozen w.ip v [] no_rules no_rules closed).0 in
      simp (e, closed, frozen)
        (rw (there public, there private, there secure, there management) refl)
]

pub closed_run :
    (w : World) (spell : Spell) (v : Vcn)
    → v.security_lists_finalized ≡ true
    → IsConsistent v
    → (run w spell (vcn v)).0 ≡ closed_outcome w spell v
unfolding run closed_outcome new_load_balancer new_internal_load_balancer new_scalable_workload
    build_cluster add_oke_security_lists_rules site_add_security_list_rules on_own
    add_security_list_rules
closed_run w (load_balancer a) v closed h =
    checked_closed w.ip (in_port_range a.backend_port) _ _ v
      (lb_rules_closed a.backend_port v closed)
closed_run w (internal_load_balancer a) v closed h =
    checked_closed w.ip (in_port_range a.backend_port) _ _ v
      (ilb_rules_closed a.backend_port v closed)
closed_run w (bastion a) v closed h = bastion_closed w a v closed h
closed_run w (compute_instance a) v closed h = compute_closed w a v closed h
closed_run w (scalable_workload a) v closed h = elim (script_cases w.encoding a.cloud_init_script) [
  | inl (t, e, good) ↦ simp (e (vcn v), good, workload_rules_closed (config_of a) v closed) refl
  | inr (e, bad) ↦ simp (e (vcn v), bad) refl
]
closed_run w (oke_cluster type a) v closed h = simp closed refl

-- On a live network that is finalized, a spell changes no rule, no subnet and nothing else but the
-- recorded fingerprints. A load balancer, an internal load balancer and a scalable workload raise
-- `RuntimeError` unless their arguments are refused with `ValueError` first, and a cluster always
-- raises `RuntimeError`. A bastion with client CIDRs returns exactly when its rule was recorded
-- before, and a compute instance exactly when its volumes are accepted.
pub closed_network :
    (w : World) (spell : Spell) (v : Vcn)
    → v.security_lists_finalized ≡ true
    → IsConsistent v
    → ((run w spell (vcn v)).0 ≡ closed_outcome w spell v)
      × ((seen : List Text) × ((run w spell (vcn v)).1 ≡ vcn (with_rules v v.rules seen)))
closed_network w spell v closed h =
    let (cs, e) = run-IsSiteCalls w spell v in
    let (seen, same) = calls_closed w.ip cs v closed in
    (closed_run w spell v closed h, (seen, e ∙ ap vcn same))
