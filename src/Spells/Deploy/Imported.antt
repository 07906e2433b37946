-- ===== src/Spells/Deploy/Imported.antt =====
-- What each spell does on a network that another stack owns.
use cloudspells.Common.{
  ◌≡◌, refl, Bool, true, false, Option, none, some, Bool-cases, Option-cases, inl, inr,
  if◌then◌else◌,
}
use cloudspells.Exec.{Result, Result-cases, ok, err, value_error, runtime_error}
use cloudspells.VcnRef.{VcnRef, ref_add_security_list_rules, requested}
use cloudspells.Spells.Site.{
  vcn_ref, on_own, site_finalize_network, site_add_security_list_rules, get_subnet_id, subnet_of,
}
use cloudspells.Spells.LoadBalancer.{in_port_range, new_load_balancer, new_internal_load_balancer}
use cloudspells.Spells.Bastion.{new_bastion}
use cloudspells.Spells.Compute.{
  ComputeArgs, checked_volumes, assert_subnets_ready, new_compute_instance,
}
use cloudspells.Spells.Workload.{new_scalable_workload}
use cloudspells.Spells.Oke.Lists.{oke_security_lists_rules}
use cloudspells.Spells.Oke.Cluster.{add_oke_security_lists_rules, build_cluster}
use cloudspells.Spells.Deploy.{
  World, Spell, load_balancer, internal_load_balancer, bastion, compute_instance, scalable_workload,
  oke_cluster, run,
}
use cloudspells.Spells.Deploy.Refused.{accepts_script, script_cases}

abbrev present : {A : Type 0} → Option A → Bool
present none = false
present (some a) = true

abbrev compute_outcome : {A B C : Type 0} → Result A → Option B → Option C → Result (Unit {0})
compute_outcome (err e) s m = err e
compute_outcome (ok a) none m = err runtime_error
compute_outcome (ok a) (some b) none = err runtime_error
compute_outcome (ok a) (some b) (some c) = ok tt

-- The result of each spell, from its arguments and the subnets that were imported.
pub imported_outcome : World → Spell → VcnRef → Result (Unit {0})
imported_outcome w (load_balancer a) ref =
    if in_port_range a.backend_port then ok tt else err value_error
imported_outcome w (internal_load_balancer a) ref =
    if in_port_range a.backend_port then ok tt else err value_error
imported_outcome w (bastion a) ref =
    if present a.allowed_client_cidrs then ok tt else err value_error
imported_outcome w (compute_instance a) ref =
    compute_outcome (checked_volumes a.volumes) ref.secure_subnet ref.management_subnet
imported_outcome w (scalable_workload a) ref =
    if accepts_script a.cloud_init_script then ok tt else err value_error
imported_outcome w (oke_cluster type a) ref = err runtime_error

imported_compute :
    (w : World) (a : ComputeArgs) (ref : VcnRef)
    → run w (compute_instance a) (vcn_ref ref) ≡ (
      compute_outcome (checked_volumes a.volumes) ref.secure_subnet ref.management_subnet,
      vcn_ref ref,
    )
unfolding run new_compute_instance on_own site_finalize_network subnet_of assert_subnets_ready
imported_compute w a ref = elim (Result-cases (checked_volumes a.volumes)) [
  | inr (x, e) ↦ rw e refl
  | inl (specs, e) ↦ elim (Option-cases ref.secure_subnet) [
    | inl none_secure ↦ simp (e, none_secure) refl
    | inr (s, is_secure) ↦ elim (Option-cases ref.management_subnet) [
      | inl none_management ↦ simp (e, is_secure, none_management) refl
      | inr (m, is_management) ↦ simp (e, is_secure, is_management) refl
    ]
  ]
]

-- On a network of another stack, no spell changes anything. A cluster always raises
-- `RuntimeError`, whatever the other stack has added. A compute instance wants all four subnets,
-- also the ones that it is not placed in, and raises `RuntimeError` where the secure or the
-- management subnet was not imported. The others return unless their arguments are refused with
-- `ValueError`, and rely on the other stack for their rules.
pub imported_network :
    (w : World) (spell : Spell) (ref : VcnRef)
    → run w spell (vcn_ref ref) ≡ (imported_outcome w spell ref, vcn_ref ref)
unfolding run imported_outcome new_load_balancer new_internal_load_balancer new_bastion
    new_compute_instance new_scalable_workload build_cluster add_oke_security_lists_rules
    site_add_security_list_rules on_own site_finalize_network get_subnet_id subnet_of
    assert_subnets_ready ref_add_security_list_rules requested oke_security_lists_rules
imported_network w (load_balancer a) ref = elim (Bool-cases (in_port_range a.backend_port)) [
  | inl e ↦ simp e refl
  | inr e ↦ simp e refl
]
imported_network w (internal_load_balancer a) ref =
    elim (Bool-cases (in_port_range a.backend_port)) [ inl e ↦ simp e refl | inr e ↦ simp e refl ]
imported_network w (bastion a) ref = elim (Option-cases a.allowed_client_cidrs) [
  | inl e ↦ simp e refl
  | inr (cidrs, e) ↦ simp e refl
]
imported_network w (compute_instance a) ref = imported_compute w a ref
imported_network w (scalable_workload a) ref = elim (script_cases w.encoding a.cloud_init_script) [
  | inl (t, e, good) ↦ simp (e (vcn_ref ref), good) refl
  | inr (e, bad) ↦ simp (e (vcn_ref ref), bad) refl
]
imported_network w (oke_cluster type a) ref = refl
