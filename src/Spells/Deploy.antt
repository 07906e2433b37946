-- ===== src/Spells/Deploy.antt =====
-- A program that builds one network: spells and calls of its methods, one after another, where the
-- program goes on after an exception.
pub mod Refused
pub mod Closed
pub mod Imported
pub mod Accepted
pub mod Forward
pub mod Returned
use cloudspells.Common.{◌≡◌, refl, sym, ap, ◌∙◌, Option, List, [], ◌∷◌, ◌++◌}
use mathlib.Core.Path.{subst}
use cloudspells.Common.Text.{Text}
use cloudspells.Exec.{Exec, Action, Result, ok, err}
use cloudspells.IpNetwork.{IpText}
use cloudspells.Rules.{SlRules, extend}
use cloudspells.Vcn.Defs.{Vcn, VcnArgs, new_vcn}
use cloudspells.Vcn.Collect.{Call, call, calls, IsConsistent, calls-IsConsistent, calls-extend}
use cloudspells.Spells.Site.{Site, vcn, on_own}
use cloudspells.Spells.Compose.{IsSiteCalls, IsPlaced, IsPlaced-IsSiteCalls, calls-append}
use cloudspells.Spells.Keys.{GenerateKeys}
use cloudspells.Spells.LoadBalancer.{
  LoadBalancerArgs, new_load_balancer, new_internal_load_balancer,
}
use cloudspells.Spells.Bastion.{BastionArgs, new_bastion}
use cloudspells.Spells.Compute.{ComputeArgs, new_compute_instance}
use cloudspells.Spells.Workload.{Encoding, WorkloadArgs, new_scalable_workload}
use cloudspells.Spells.Oke.Cluster.{ClusterType, OkeArgs, build_cluster}
use cloudspells.Spells.Effects.{
  new_load_balancer-IsPlaced, new_internal_load_balancer-IsPlaced, new_bastion-IsPlaced,
  new_compute_instance-IsPlaced, new_scalable_workload-IsPlaced, build_cluster-IsPlaced,
}

-- What the spells take from outside: address arithmetic, key pairs, encodings, the CIDR of the
-- services, and the availability domains.
pub record World : Type 0 where
  pub ip : IpText
  pub generate : GenerateKeys
  pub encoding : Encoding
  pub b64encode : Text → Text
  pub svc_cidr : Text
  pub domains : List Text
  pub cluster_domains : List (Option Text)

pub data Spell : Type 0 where
  load_balancer : LoadBalancerArgs → Spell
  internal_load_balancer : LoadBalancerArgs → Spell
  bastion : BastionArgs → Spell
  compute_instance : ComputeArgs → Spell
  scalable_workload : WorkloadArgs → Spell
  oke_cluster : ClusterType → OkeArgs → Spell

pub data Step : Type 0 where
  cast : Spell → Step
  on_network : Call → Step

abbrev pub void : {A : Type 0} → Result A → Result (Unit {0})
void (ok a) = ok tt
void (err e) = err e

abbrev pub forget : {A : Type 0} → Exec Site A → Action Site
forget m s = let (r, s') = m s in (void r, s')

unfoldable pub run : World → Spell → Action Site
run w (load_balancer a) = forget (new_load_balancer w.ip a)
run w (internal_load_balancer a) = forget (new_internal_load_balancer w.ip a)
run w (bastion a) = forget (new_bastion w.ip a)
run w (compute_instance a) = forget (new_compute_instance w.ip w.generate w.b64encode a)
run w (scalable_workload a) = forget (new_scalable_workload w.ip w.generate w.encoding w.domains a)
run w (oke_cluster type a) = forget (build_cluster w.ip w.svc_cidr w.cluster_domains type a)

unfoldable pub take_step : World → Step → Action Site
take_step w (cast spell) = run w spell
take_step w (on_network c) = on_own (call w.ip c)

unfoldable pub deploy : World → List Step → Site → Site
unfolding take_step
deploy w [] s = s
deploy w (x ∷ xs) s = deploy w xs (take_step w x s).1

pub run-IsSiteCalls : (w : World) (spell : Spell) (v : Vcn) → IsSiteCalls w.ip (run w spell) v
unfolding run
run-IsSiteCalls w (load_balancer a) v =
    IsPlaced-IsSiteCalls w.ip _ (new_load_balancer-IsPlaced w.ip a) v
run-IsSiteCalls w (internal_load_balancer a) v =
    IsPlaced-IsSiteCalls w.ip _ (new_internal_load_balancer-IsPlaced w.ip a) v
run-IsSiteCalls w (bastion a) v = IsPlaced-IsSiteCalls w.ip _ (new_bastion-IsPlaced w.ip a) v
run-IsSiteCalls w (compute_instance a) v =
    IsPlaced-IsSiteCalls w.ip _ (new_compute_instance-IsPlaced w.ip w.generate w.b64encode a) v
run-IsSiteCalls w (scalable_workload a) v =
    IsPlaced-IsSiteCalls w.ip _
      (new_scalable_workload-IsPlaced w.ip w.generate w.encoding w.domains a) v
run-IsSiteCalls w (oke_cluster type a) v =
    IsPlaced-IsSiteCalls w.ip _ (build_cluster-IsPlaced w.ip w.svc_cidr w.cluster_domains type a) v

take_step-IsSiteCalls : (w : World) (x : Step) (v : Vcn) → IsSiteCalls w.ip (take_step w x) v
unfolding take_step on_own calls
take_step-IsSiteCalls w (cast spell) v = run-IsSiteCalls w spell v
take_step-IsSiteCalls w (on_network c) v = (c ∷ [], refl)

pub deploy-calls :
    (w : World) (xs : List Step) (v : Vcn)
    → (cs : List Call) × (deploy w xs (vcn v) ≡ vcn (calls w.ip cs v))
unfolding deploy calls
deploy-calls w [] v = ([], refl)
deploy-calls w (x ∷ xs) v =
    let (cs, e) = take_step-IsSiteCalls w x v in
    let (ds, e') = deploy-calls w xs (calls w.ip cs v) in
    (cs ++ ds, ap (deploy w xs) e ∙ e' ∙ ap vcn (sym (calls-append w.ip cs ds v)))

-- Any program of spells and calls on a VCN that was constructed, whichever of them raise, leaves
-- the same live network, with all the rules that it had at the start and in their order. As long as
-- it is open it has no subnets, and once it is closed each tier's subnet has the tier's address
-- range, its route table, and exactly the rules collected for it.
pub deploy-IsConsistent :
    (w : World) (a : VcnArgs) (xs : List Step) {v : Vcn}
    → new_vcn w.ip a ≡ ok v
    → (v' : Vcn) × (deploy w xs (vcn v) ≡ vcn v')
      × IsConsistent v'
      × ((more : SlRules) × (v'.rules ≡ extend v.rules more))
deploy-IsConsistent w a xs {v} h =
    let (cs, e) = deploy-calls w xs v in
    (calls w.ip cs v, e, calls-IsConsistent w.ip a cs h, calls-extend w.ip cs v)
