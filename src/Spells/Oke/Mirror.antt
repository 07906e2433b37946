-- ===== src/Spells/Oke/Mirror.antt =====
-- The rules of a cluster's groups fit together: traffic that one group sends to another is taken
-- there, and nothing else is.
use cloudspells.Common.{
  ◌≡◌, refl, ℕ, ◌+◌, Bool, true, false, not, ◌&&◌, ◌||◌, Option, none, some, List, [], ◌∷◌, ◌++◌,
  ◌==◌, All, All-append, All-append_left, All-append_right, All-weaken, arith, Bool-cases, inl, inr,
}
use cloudspells.Common.Text.{Text, codes, text_eq}
use cloudspells.Naming.{ResourceNamer}
use cloudspells.Rules.{PortRange}
use cloudspells.Nsg.Defs.{Direction, ingress, egress, tcp_port, tcp_port_range}
use cloudspells.Spells.Oke.Rules.{
  OkeGroup, api, lb, worker, pod, OkePeer, group, OkeRule, oke_rule, kubectl_rules,
  add_api_nsg_rules, add_lb_nsg_rules, add_worker_nsg_rules, add_pod_nsg_rules, api_ingress_rules,
  api_egress_rules,
}
use cloudspells.Spells.Oke.Cluster.{oke_nsg_rules}

abbrev same_group : OkeGroup → OkeGroup → Bool
same_group api api = true
same_group lb lb = true
same_group worker worker = true
same_group pod pod = true
same_group _ _ = false

abbrev opposite : Direction → Direction → Bool
opposite ingress egress = true
opposite egress ingress = true
opposite _ _ = false

abbrev pub same_ports : Option PortRange → Option PortRange → Bool
same_ports none none = true
same_ports (some a) (some b) = a.min == b.min && a.max == b.max
same_ports _ _ = false

abbrev is_peer : OkePeer → OkeGroup → Bool
is_peer (group g) h = same_group g h
is_peer _ h = false

or_assoc : (a b c : Bool) → (a || (b || c)) ≡ ((a || b) || c)
or_assoc true b c = refl
or_assoc false b c = refl

-- The other half of a connection: the rule of the peer that names this group, in the other
-- direction, with the same protocol and the same ports.
unfoldable pub answers : OkeRule → OkeRule → Bool
answers r m =
    opposite r.direction m.direction
    && is_peer r.peer m.nsg
    && is_peer m.peer r.nsg
    && text_eq r.protocol m.protocol
    && same_ports r.tcp_options m.tcp_options

unfoldable pub some_answers : List OkeRule → OkeRule → Bool
unfolding answers
some_answers [] r = false
some_answers (m ∷ ms) r = answers r m || some_answers ms r

abbrev names_group : OkePeer → Bool
names_group (group g) = true
names_group _ = false

-- A rule between two groups has its other half among the rules.
abbrev pub IsAnswered : List OkeRule → OkeRule → Type 0
IsAnswered rules r = (names_group r.peer && not (some_answers rules r)) ≡ false

fixed : ResourceNamer → Text → List OkeRule
unfolding api_ingress_rules api_egress_rules
fixed n svc =
    api_ingress_rules n
    ++ (api_egress_rules n svc
        ++ (add_lb_nsg_rules n ++ (add_worker_nsg_rules n svc ++ add_pod_nsg_rules n svc)))

all_answered : List OkeRule → List OkeRule → Bool
all_answered rules [] = true
all_answered rules (r ∷ rs) =
    not (names_group r.peer && not (some_answers rules r)) && all_answered rules rs

all_answered-All :
    (rules rs : List OkeRule) → all_answered rules rs ≡ true → All (IsAnswered rules) rs
unfolding all_answered
all_answered-All rules [] h = tt
all_answered-All rules (r ∷ rs) h =
    elim (Bool-cases (names_group r.peer && not (some_answers rules r))) [
      | inl e ↦ absurd (ground arith)
      | inr e ↦ (e, all_answered-All rules rs (ground arith))
    ]

fixed-answered : (n : ResourceNamer) (svc : Text) → all_answered (fixed n svc) (fixed n svc) ≡ true
unfolding all_answered fixed api_ingress_rules api_egress_rules add_lb_nsg_rules
    add_worker_nsg_rules add_pod_nsg_rules some_answers answers oke_rule text_eq codes tcp_port
    tcp_port_range
fixed-answered n svc = refl

some_answers-append :
    (xs ys : List OkeRule) (r : OkeRule)
    → some_answers (xs ++ ys) r ≡ (some_answers xs r || some_answers ys r)
unfolding some_answers
some_answers-append [] ys r = refl
some_answers-append (x ∷ xs) ys r =
    rw (some_answers-append xs ys r)
      (or_assoc (answers r x) (some_answers xs r) (some_answers ys r))

-- More rules in the middle answer no fewer.
IsAnswered-insert :
    (xs ks ys zs : List OkeRule) (r : OkeRule)
    → IsAnswered (xs ++ (ys ++ zs)) r
    → IsAnswered ((xs ++ (ks ++ ys)) ++ zs) r
IsAnswered-insert xs ks ys zs r h = grind (arith, some_answers-append)

insert-All :
    (xs ks ys zs : List OkeRule)
    → ((rules : List OkeRule) → All (IsAnswered rules) ks)
    → All (IsAnswered (xs ++ (ys ++ zs))) (xs ++ (ys ++ zs))
    → All (IsAnswered ((xs ++ (ks ++ ys)) ++ zs)) ((xs ++ (ks ++ ys)) ++ zs)
insert-All xs ks ys zs free h =
    let P = IsAnswered (xs ++ (ys ++ zs)) in
    let Q = IsAnswered ((xs ++ (ks ++ ys)) ++ zs) in
    let more = λ (rs : List OkeRule). All-weaken P Q rs (IsAnswered-insert xs ks ys zs) in
    let tail = All-append_right P xs (ys ++ zs) h in
    All-append Q (xs ++ (ks ++ ys)) zs
      (All-append Q xs (ks ++ ys) (more xs (All-append_left P xs (ys ++ zs) h))
        (All-append Q ks ys (free _) (more ys (All-append_left P ys zs tail))))
      (more zs (All-append_right P ys zs tail))

kubectl-IsAnswered :
    (rules : List OkeRule) (n : ResourceNamer) (index : ℕ) (allowed : List Text)
    → All (IsAnswered rules) (kubectl_rules n index allowed)
unfolding kubectl_rules oke_rule
kubectl-IsAnswered rules n index [] = tt
kubectl-IsAnswered rules n index (a ∷ allowed) =
    (refl, kubectl-IsAnswered rules n (index + 1) allowed)

-- Every rule of a cluster between two of its groups has its other half: what one group may send to
-- another, the other group takes from it on the same ports, and what a group takes from another,
-- that group may send. This holds whatever networks `kubectl` may come from.
pub oke_nsg_rules-IsAnswered :
    (n : ResourceNamer) (svc : Text) (allowed : List Text)
    → All (IsAnswered (oke_nsg_rules n svc allowed)) (oke_nsg_rules n svc allowed)
unfolding oke_nsg_rules add_api_nsg_rules
oke_nsg_rules-IsAnswered n svc allowed =
    insert-All (api_ingress_rules n) (kubectl_rules n 0 allowed) (api_egress_rules n svc)
      (add_lb_nsg_rules n ++ (add_worker_nsg_rules n svc ++ add_pod_nsg_rules n svc))
      (λ rules. kubectl-IsAnswered rules n 0 allowed)
      (unfold fixed in all_answered-All (fixed n svc) (fixed n svc) (fixed-answered n svc))
