-- ===== src/Spells/Deploy/Accepted.antt =====
-- The rules that a spell that returned has added.
use cloudspells.Common.{
  ◌≡◌, refl, sym, ◌∙◌, ℕ, Bool, true, false, ◌&&◌, List, [], ◌∷◌, ◌++◌, arith, Bool-cases, inl, inr,
}
use mathlib.Core.Path.{subst}
use cloudspells.Common.Text.{Text, codes, text_eq, text_eq_refl}
use cloudspells.Common.Decimal.{str}
use cloudspells.Exec.{Exec, Action, Result, Result-cases, ok, err, >>-ok, >>=-ok, ◌>>◌}
use cloudspells.IpNetwork.{IpText}
use cloudspells.Roles.{public, private}
use cloudspells.Rules.{SlRules, extend}
use cloudspells.Vcn.Defs.{Vcn, subnet_cidr, add_security_list_rules, add_unique_security_list_rules}
use cloudspells.Vcn.Finalize.{finalize_network}
use cloudspells.Spells.Site.{Site, vcn, on_own, site_finalize_network, tcp_from, tcp_to}
use cloudspells.Spells.Compose.{Looks, IsPlaced, placed}
use cloudspells.Spells.Traffic.{sends, takes}
use cloudspells.Spells.LoadBalancer.{forwards}
use cloudspells.Spells.Workload.{OciLoadBalancerConfig, workload_security_rules}
use cloudspells.Spells.Oke.Lists.{oke_security_lists_rules}
use cloudspells.Spells.Deploy.{void, forget}

void-ok : {A : Type 0} (r : Result A) → void r ≡ ok tt → (a : A) × (r ≡ ok a)
void-ok (ok a) h = (a, refl)
void-ok (err e) h = absurd (ground arith)

module _ {A B : Type 0} (ip : IpText) (guard : Exec Site B) (rules : B → Action Vcn)
    (look : B → Exec Site A) (v : Vcn) where
  -- Behind the checks: the rules were accepted, and then the network was finalized.
  behind_guard :
      (b : B) {a : A}
      → Looks (look b)
      → ((on_own (rules b) >> (site_finalize_network ip >> look b)) (vcn v)).0 ≡ ok a
      → ((rules b v).0 ≡ ok tt)
        × (((on_own (rules b) >> (site_finalize_network ip >> look b)) (vcn v)).1
            ≡ vcn (finalize_network ip (rules b v).1).1)
  unfolding on_own site_finalize_network
  behind_guard b looks h = elim (Result-cases (rules b v).0) [
    | inr (x, e) ↦ absurd (ground arith)
    | inl (t, e) ↦ elim (Result-cases (finalize_network ip (rules b v).1).0) [
      | inr (y, e') ↦ (e, rw (e, e') refl)
      | inl (t', e') ↦ (e, rw (e, e') (looks (vcn (finalize_network ip (rules b v).1).1)))
    ]
  ]

  placed-rules :
      {a : A}
      → Looks guard
      → ((b : B) → Looks (look b))
      → (placed ip guard rules look (vcn v)).0 ≡ ok a
      → (b : B) × ((rules b v).0 ≡ ok tt)
        × ((placed ip guard rules look (vcn v)).1 ≡ vcn (finalize_network ip (rules b v).1).1)
  placed-rules checks looks h =
      let rest = λ (b : B). (on_own (rules b) >> (site_finalize_network ip >> look b)) in
      let (b, e, h') = >>=-ok guard rest (vcn v) h in
      let h'' = rw (checks (vcn v)) at h' in
      let (accepted, left) = behind_guard b (looks b) h'' in
      (b, accepted, rw (e, checks (vcn v)) left)

-- A spell that returned had its rules accepted, and left the network that it then finalized.
pub returned-rules :
    {A : Type 0} (ip : IpText) (spell : Exec Site A) (v : Vcn) (p : IsPlaced ip spell)
    → (forget spell (vcn v)).0 ≡ ok tt
    → (b : p.Checked) × ((p.rules b v).0 ≡ ok tt)
      × ((spell (vcn v)).1 ≡ vcn (finalize_network ip (p.rules b v).1).1)
returned-rules ip spell v p h =
    let (a, e) = void-ok (spell (vcn v)).0 h in
    rw (p.shape v)
      (placed-rules ip p.guard p.rules p.look v p.guard_looks p.look_looks (rw (p.shape v) at e))

-- The network took these rules last.
abbrev pub Took : SlRules → Vcn → Type 0
Took added u =
    (before : SlRules) × (u.rules ≡ extend before added) × (u.security_lists_finalized ≡ false)

pub add-Took :
    (added : SlRules) (v : Vcn)
    → (add_security_list_rules added v).0 ≡ ok tt
    → Took added (add_security_list_rules added v).1
unfolding add_security_list_rules
add-Took added v h = elim (Bool-cases v.security_lists_finalized) [
  | inl closed ↦ absurd (ground arith)
  | inr open_ ↦ (v.rules, simp open_ refl, simp open_ refl)
]

pub two_ambient-Took :
    (f g : Text) (q r s : SlRules) (v : Vcn)
    → let m = (do
      add_unique_security_list_rules f q
      add_unique_security_list_rules g r
      add_security_list_rules s) in
      (m v).0 ≡ ok tt → Took s (m v).1
two_ambient-Took f g q r s v h =
    let rest = (do add_unique_security_list_rules g r; add_security_list_rules s) in
    let (_, h1, e1) = >>-ok (add_unique_security_list_rules f q) rest v h in
    let (_, h2, e2) = >>-ok (add_unique_security_list_rules g r) (add_security_list_rules s) _ h1 in
    subst (λ (p : Result Unit × Vcn). Took s p.1) (sym (e1 ∙ e2)) (add-Took s _ h2)

pub one_sent :
    (destination : Text) (port : ℕ) (description : Text)
    → sends (tcp_to destination port port description ∷ []) destination port ≡ true
unfolding sends tcp_to
one_sent destination port description = simp text_eq_refl (ground arith)

pub one_taken :
    (source : Text) (port : ℕ) (description : Text)
    → takes (tcp_from source port port description ∷ []) source port ≡ true
unfolding takes tcp_from
one_taken source port description = simp text_eq_refl (ground arith)

pub both : (a b : Bool) → (a && b) ≡ true → (a ≡ true) × (b ≡ true)
both true b h = (refl, h)
both false b h = absurd (ground arith)

pub public_rules-Took :
    (ip : IpText) (c : OciLoadBalancerConfig) (v : Vcn)
    → c.is_public ≡ true
    → (workload_security_rules c v).0 ≡ ok tt
    → (s : Text) × (t : Text) × Took
        (forwards
          (tcp_to (subnet_cidr v private) c.backend_port c.backend_port s)
          (tcp_from (subnet_cidr v public) c.backend_port c.backend_port t))
        (workload_security_rules c v).1
unfolding workload_security_rules
public_rules-Took ip c v is_public accepted = (
  codes "Load balancer forwards traffic to backend instances on port " ++ str c.backend_port,
  codes "Traffic from load balancer to application on port " ++ str c.backend_port,
  simp is_public (two_ambient-Took _ _ _ _ _ v (simp is_public at accepted)),
)

pub cluster_sends :
    (public_cidr private_cidr svc : Text) (allowed : List Text) (port : ℕ)
    → sends
        (oke_security_lists_rules public_cidr private_cidr svc allowed).public_egress
        private_cidr
        port
      ≡ true
unfolding oke_security_lists_rules sends tcp_to text_eq codes
cluster_sends public_cidr private_cidr svc allowed port = ground (arith, text_eq_refl private_cidr)

pub cluster_takes :
    (public_cidr private_cidr svc : Text) (allowed : List Text) (port : ℕ)
    → takes
        (oke_security_lists_rules public_cidr private_cidr svc allowed).private_ingress
        public_cidr
        port
      ≡ true
unfolding oke_security_lists_rules takes tcp_from text_eq codes
cluster_takes public_cidr private_cidr svc allowed port = ground (arith, text_eq_refl public_cidr)
