-- ===== src/Spells/Deploy/Returned.antt =====
-- A spell that returns leaves its network finalized.
use cloudspells.Common.{
  ◌≡◌, refl, sym, ap, ◌∙◌, Bool, true, false, List, [], Bool-cases, inl, inr, arith, if◌then◌else◌,
}
use cloudspells.Exec.{Error, runtime_error, Exec, Result, Result-cases, ok, err, ◌>>=◌, ◌>>◌}
use cloudspells.IpNetwork.{IpText}
use cloudspells.Rules.{no_rules}
use cloudspells.Vcn.Defs.{Vcn}
use cloudspells.Vcn.Finalize.{finalize_network}
use cloudspells.Vcn.Lifecycle.{finalized_is_frozen, finalize_network-IsWired}
use cloudspells.Vcn.Collect.{calls, calls_keep, IsConsistent}
use cloudspells.Spells.Site.{Site, vcn, vcn_ref, on_own, site_finalize_network}
use cloudspells.Spells.Compose.{Looks, IsPlaced}
use cloudspells.Spells.Effects.{
  new_load_balancer-IsPlaced, new_internal_load_balancer-IsPlaced, new_bastion-IsPlaced,
  new_compute_instance-IsPlaced, new_scalable_workload-IsPlaced, build_cluster-IsPlaced,
}
use cloudspells.Spells.Deploy.{
  World, Spell, load_balancer, internal_load_balancer, bastion, compute_instance, scalable_workload,
  oke_cluster, run, forget, Step, deploy, deploy-calls, run-IsSiteCalls,
}
use cloudspells.Spells.Deploy.Refused.{calls_closed}
use cloudspells.Spells.Deploy.Closed.{closed_outcome, closed_run}

pub finalize_closes :
    (ip : IpText) (v : Vcn) → (finalize_network ip v).1.security_lists_finalized ≡ true
finalize_closes ip v = elim (Bool-cases v.security_lists_finalized) [
  | inl closed ↦ rw (finalized_is_frozen ip v [] no_rules no_rules closed).0 closed
  | inr open_ ↦ (finalize_network-IsWired ip v open_).1
]

-- The network behind the result.
abbrev pub IsClosed : Site → Type 0
IsClosed s = (v : Vcn) × (s ≡ vcn v) × (v.security_lists_finalized ≡ true)

-- From the state, a result means that the network is closed.
abbrev Closes : {A : Type 0} → Exec Site A → Site → Type 0
Closes m s = (forget m s).0 ≡ ok tt → IsClosed (m s).1

Closes-bind :
    {A B : Type 0} (m : Exec Site B) (k : B → Exec Site A) (s : Site)
    → ((b : B) → Closes (k b) (m s).1)
    → Closes (m >>= k) s
Closes-bind m k s f = elim (Result-cases (m s).0) [
  | inl (b, e) ↦ rw e (f b)
  | inr (x, e) ↦ rw e (λ h. absurd (ground arith))
]

finish-Closes :
    {A : Type 0} (ip : IpText) (look : Exec Site A) (v : Vcn)
    → Looks look
    → Closes (site_finalize_network ip >> look) (vcn v)
unfolding site_finalize_network on_own
finish-Closes ip look v looks =
    let w = (finalize_network ip v).1 in
    Closes-bind (site_finalize_network ip) (λ (_ : Unit {0}). look) (vcn v)
      (λ _ _. (w, looks (vcn w), finalize_closes ip v))

IsPlaced-Closes :
    {A : Type 0} (ip : IpText) (spell : Exec Site A) (v : Vcn)
    → IsPlaced ip spell
    → Closes spell (vcn v)
unfolding on_own
IsPlaced-Closes {A} ip spell v p =
    let rest = λ (b : p.Checked). site_finalize_network ip >> p.look b in
    rw (p.shape v) (
      Closes-bind p.guard (λ b. (on_own (p.rules b) >> rest b)) (vcn v)
        (λ b. rw (p.guard_looks (vcn v)) (
          Closes-bind (on_own (p.rules b)) (λ (_ : Unit {0}). rest b) (vcn v)
            (λ _. finish-Closes ip (p.look b) (p.rules b v).1 (p.look_looks b)))))

-- A spell that returns on a live network leaves it live and finalized, so that the spells behind
-- it on that network are placed on a closed one.
returned-IsClosed :
    (w : World) (spell : Spell) (v : Vcn)
    → (run w spell (vcn v)).0 ≡ ok tt
    → IsClosed (run w spell (vcn v)).1
unfolding run
returned-IsClosed w (load_balancer a) v h =
    IsPlaced-Closes w.ip _ v (new_load_balancer-IsPlaced w.ip a) h
returned-IsClosed w (internal_load_balancer a) v h =
    IsPlaced-Closes w.ip _ v (new_internal_load_balancer-IsPlaced w.ip a) h
returned-IsClosed w (bastion a) v h = IsPlaced-Closes w.ip _ v (new_bastion-IsPlaced w.ip a) h
returned-IsClosed w (compute_instance a) v h =
    IsPlaced-Closes w.ip _ v (new_compute_instance-IsPlaced w.ip w.generate w.b64encode a) h
returned-IsClosed w (scalable_workload a) v h =
    IsPlaced-Closes w.ip _ v (new_scalable_workload-IsPlaced w.ip w.generate w.encoding w.domains a)
      h
returned-IsClosed w (oke_cluster type a) v h =
    IsPlaced-Closes w.ip _ v (build_cluster-IsPlaced w.ip w.svc_cidr w.cluster_domains type a) h

-- The spells that declare rules of their own on each network.
unfoldable pub opens : Spell → Bool
opens (load_balancer a) = true
opens (internal_load_balancer a) = true
opens (bastion a) = false
opens (compute_instance a) = false
opens (scalable_workload a) = true
opens (oke_cluster type a) = true

if_err :
    (b : Bool) (x y : Error)
    → (e : Error) × (◌≡◌ {A = Result (Unit {0})} (if b then err x else err y) (err e))
if_err true x y = (x, refl)
if_err false x y = (y, refl)

opens-err :
    (w : World) (spell : Spell) (v : Vcn)
    → opens spell ≡ true
    → (e : Error) × (closed_outcome w spell v ≡ err e)
unfolding opens closed_outcome
opens-err w (load_balancer a) v h = if_err _ _ _
opens-err w (internal_load_balancer a) v h = if_err _ _ _
opens-err w (bastion a) v h = absurd (ground arith)
opens-err w (compute_instance a) v h = absurd (ground arith)
opens-err w (scalable_workload a) v h = if_err _ _ _
opens-err w (oke_cluster type a) v h = (runtime_error, refl)

abbrev site_flag : Site → Bool
site_flag (vcn v) = v.security_lists_finalized
site_flag (vcn_ref ref) = true

-- On one live network, nothing that declares rules of its own can follow a spell that returned:
-- whatever spells and calls come between, and whichever of them raise, a load balancer, an internal
-- load balancer, a scalable workload or a cluster raises then. The network was built by the
-- constructor and any spells and calls before.
pub single_opening :
    (w : World) (first second : Spell) (between : List Step) (v : Vcn)
    → IsConsistent v
    → (run w first (vcn v)).0 ≡ ok tt
    → opens second ≡ true
    → (e : Error) × ((run w second (deploy w between (run w first (vcn v)).1)).0 ≡ err e)
single_opening w first second between v h returned opening =
    let (x, shape, closed) = returned-IsClosed w first v returned in
    let (cs, left) = run-IsSiteCalls w first v in
    let (ds, passed) = deploy-calls w between (calls w.ip cs v) in
    let y = calls w.ip ds (calls w.ip cs v) in
    let z_closed = ap site_flag (sym left ∙ shape) ∙ closed in
    let (seen, same) = calls_closed w.ip ds (calls w.ip cs v) z_closed in
    let y_closed = ap (λ (u : Vcn). u.security_lists_finalized) same ∙ z_closed in
    let y_consistent = calls_keep w.ip ds (calls w.ip cs v) (calls_keep w.ip cs v h) in
    let (e, outcome) = opens-err w second y opening in
    (
      e,
      ap (λ s. (run w second (deploy w between s)).0) left
          ∙ ap (λ s. (run w second s).0) passed
          ∙ closed_run w second y y_closed y_consistent
          ∙ outcome,
    )
