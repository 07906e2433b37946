-- ===== src/Spells/Deploy/Forward.antt =====
-- The public entrances of a network: load balancers, workloads and clusters reach what is behind
-- them.
use cloudspells.Common.{◌≡◌, sym, ap, ◌∙◌, ℕ, Bool, true, false, ◌&&◌, ◌==◌, ==_iff, arith}
use mathlib.Core.Path.{subst}
use cloudspells.Common.Text.{Text}
use cloudspells.Exec.{Exec, ok}
use cloudspells.IpNetwork.{IpText}
use cloudspells.Roles.{public, private}
use cloudspells.Rules.{SlRules}
use cloudspells.Subnets.{SubnetCidrs}
use cloudspells.Vcn.Defs.{Vcn, VcnArgs, subnet_cidr, add_security_list_rules}
use cloudspells.Vcn.Frame.{calls-frame}
use cloudspells.Vcn.Finalize.{finalize_network}
use cloudspells.Spells.Site.{Site, vcn, tcp_from, tcp_to}
use cloudspells.Spells.Compose.{IsCalls, add-IsCalls}
use cloudspells.Spells.Traffic.{IsOpenTo, finalize-IsOpenTo, sends, takes}
use cloudspells.Spells.LoadBalancer.{LoadBalancerArgs, lb_security_rules, forwards}
use cloudspells.Spells.Workload.{WorkloadArgs, config_of, workload_security_rules}
use cloudspells.Spells.Oke.Cluster.{ClusterType, OkeArgs, allowed_cidrs_of}
use cloudspells.Spells.Oke.Lists.{oke_security_lists_rules}
use cloudspells.Spells.Effects.{
  new_load_balancer-IsPlaced, new_scalable_workload-IsPlaced, build_cluster-IsPlaced, cluster_rules,
  lb_rules-IsCalls, workload_rules-IsCalls,
}
use cloudspells.Spells.Deploy.{
  World, Spell, load_balancer, internal_load_balancer, bastion, compute_instance, scalable_workload,
  oke_cluster, run,
}
use cloudspells.Spells.Deploy.Accepted.{
  returned-rules, Took, add-Took, two_ambient-Took, one_sent, one_taken, both, public_rules-Took,
  cluster_sends, cluster_takes,
}

-- The ports behind a public entrance.
unfoldable pub entrance : Spell → ℕ → Bool
entrance (load_balancer a) port = port == a.backend_port
entrance (internal_load_balancer a) port = false
entrance (bastion a) port = false
entrance (compute_instance a) port = false
entrance (scalable_workload a) port = (config_of a).is_public && port == (config_of a).backend_port
entrance (oke_cluster type a) port = true

-- What a network that took these rules lets through, once it is finalized.
opened :
    (ip : IpText) (v u : Vcn) (added : SlRules) (port : ℕ)
    → Took added u
    → u.subnet_cidrs ≡ v.subnet_cidrs
    → sends added.public_egress (subnet_cidr v private) port ≡ true
    → takes added.private_ingress (subnet_cidr v public) port ≡ true
    → IsOpenTo (finalize_network ip u).1 public private port
opened ip v u added port (before, e, open_) same out back =
    finalize-IsOpenTo ip u before added port open_ e
      (ap (λ (c : SubnetCidrs). sends added.public_egress c.private port) same ∙ out)
      (ap (λ (c : SubnetCidrs). takes added.private_ingress c.public port) same ∙ back)

forwards-IsOpenTo :
    (ip : IpText) (v u : Vcn) (port : ℕ) (s t : Text)
    → Took
        (forwards
          (tcp_to (subnet_cidr v private) port port s)
          (tcp_from (subnet_cidr v public) port port t))
        u
    → u.subnet_cidrs ≡ v.subnet_cidrs
    → IsOpenTo (finalize_network ip u).1 public private port
unfolding forwards
forwards-IsOpenTo ip v u port s t took same =
    opened ip v u _ port took same (one_sent (subnet_cidr v private) port s)
      (one_taken (subnet_cidr v public) port t)

rules-subnet_cidrs :
    {A : Type 0} (ip : IpText) (m : Exec Vcn A) (v : Vcn)
    → IsCalls ip m v
    → (m v).1.subnet_cidrs ≡ v.subnet_cidrs
rules-subnet_cidrs ip m v (cs, e) =
    ap (λ (w : Vcn). w.subnet_cidrs) e
    ∙ ap (λ (f : VcnArgs × SubnetCidrs). f.1) (calls-frame ip cs v)

abbrev pub IsEntrance : Site → ℕ → Type 0
IsEntrance s port = (x : Vcn) × (s ≡ vcn x) × IsOpenTo x public private port

lb-IsEntrance :
    (w : World) (a : LoadBalancerArgs) (v : Vcn)
    → (run w (load_balancer a) (vcn v)).0 ≡ ok tt
    → IsEntrance (run w (load_balancer a) (vcn v)).1 a.backend_port
unfolding run lb_security_rules new_load_balancer-IsPlaced
lb-IsEntrance w a v h =
    let p = new_load_balancer-IsPlaced w.ip a in
    let (b, accepted, left) = returned-rules w.ip _ v p h in
    (
      _,
      left,
      forwards-IsOpenTo w.ip v _ a.backend_port _ _ (two_ambient-Took _ _ _ _ _ v accepted) (
          rules-subnet_cidrs w.ip (lb_security_rules a.backend_port) v
            (lb_rules-IsCalls w.ip a.backend_port v)),
    )

workload-IsEntrance :
    (w : World) (a : WorkloadArgs) (v : Vcn)
    → (run w (scalable_workload a) (vcn v)).0 ≡ ok tt
    → (config_of a).is_public ≡ true
    → IsEntrance (run w (scalable_workload a) (vcn v)).1 (config_of a).backend_port
unfolding run new_scalable_workload-IsPlaced
workload-IsEntrance w a v h is_public =
    let p = new_scalable_workload-IsPlaced w.ip w.generate w.encoding w.domains a in
    let (b, accepted, left) = returned-rules w.ip _ v p h in
    let (s, t, took) = public_rules-Took w.ip (config_of a) v is_public accepted in
    (
      _,
      left,
      forwards-IsOpenTo w.ip v _ (config_of a).backend_port s t took (
          rules-subnet_cidrs w.ip (workload_security_rules (config_of a)) v
            (workload_rules-IsCalls w.ip (config_of a) v)),
    )

cluster-IsEntrance :
    (w : World) (type : ClusterType) (a : OkeArgs) (v : Vcn) (port : ℕ)
    → (run w (oke_cluster type a) (vcn v)).0 ≡ ok tt
    → IsEntrance (run w (oke_cluster type a) (vcn v)).1 port
unfolding run build_cluster-IsPlaced cluster_rules
cluster-IsEntrance w type a v port h =
    let p = build_cluster-IsPlaced w.ip w.svc_cidr w.cluster_domains type a in
    let (b, accepted, left) = returned-rules w.ip _ v p h in
    let added =
      oke_security_lists_rules (subnet_cidr v public) (subnet_cidr v private) w.svc_cidr
        (allowed_cidrs_of a.kubectl_allowed_cidrs) in
    (
      _,
      left,
      opened w.ip v _ added port (add-Took added v accepted)
          (rules-subnet_cidrs w.ip (add_security_list_rules added) v (add-IsCalls w.ip added v))
          (cluster_sends _ _ _ _ port) (cluster_takes _ _ _ _ port),
    )

-- What a spell that returned has put behind a public entrance is reached from there: the network is
-- live and finalized, and its subnets of the public and the private tier have security lists that
-- let TCP connections through from the one to the other. For a load balancer and for a scalable
-- workload that is public this is the backend port, and for a cluster every port.
pub forwards_traffic :
    (w : World) (spell : Spell) (v : Vcn) (port : ℕ)
    → (run w spell (vcn v)).0 ≡ ok tt
    → entrance spell port ≡ true
    → IsEntrance (run w spell (vcn v)).1 port
unfolding entrance
forwards_traffic w (load_balancer a) v port h within =
    let e = (==_iff port a.backend_port).0 within in
    subst (λ n. IsEntrance (run w (load_balancer a) (vcn v)).1 n) (sym e) (lb-IsEntrance w a v h)
forwards_traffic w (internal_load_balancer a) v port h within = absurd (ground arith)
forwards_traffic w (bastion a) v port h within = absurd (ground arith)
forwards_traffic w (compute_instance a) v port h within = absurd (ground arith)
forwards_traffic w (scalable_workload a) v port h within =
    let (is_public, same) =
      both (config_of a).is_public (port == (config_of a).backend_port) within in
    let e = (==_iff port (config_of a).backend_port).0 same in
    subst (λ n. IsEntrance (run w (scalable_workload a) (vcn v)).1 n) (sym e)
      (workload-IsEntrance w a v h is_public)
forwards_traffic w (oke_cluster type a) v port h within = cluster-IsEntrance w type a v port h
