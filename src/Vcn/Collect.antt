-- ===== src/Vcn/Collect.antt =====
-- Any sequence of calls on a VCN, raising or not: no rule that was accepted is lost, and a
-- network that is finalized shows all of them in its subnets.
use cloudspells.Common.{
  ◌≡◌, refl, sym, ap, ◌∙◌, Bool, true, false, none, some, List, [], ◌∷◌, arith, append_assoc,
  append-nil, Bool-cases, inl, inr,
}
use cloudspells.Common.Text.{Text, contains, text_eq_refl}
use mathlib.Core.Path.{subst}
use cloudspells.Exec.{Result-cases, Action, ok, err, runtime_error}
use cloudspells.IpNetwork.{IpText}
use cloudspells.Roles.{SubnetTier, public, at_tier}
use cloudspells.Rules.{SlRules, SecurityRules, extend, no_rules}
use cloudspells.Vcn.Defs.{
  Vcn, VcnArgs, Subnet, new_vcn, initial_vcn, vcn_block, add_security_list_rules,
  add_unique_security_list_rules, add_security_rules, has_ambient_rule,
}
use cloudspells.Vcn.Finalize.{finalize_network, baseline}
use cloudspells.Vcn.Lifecycle.{IsWired, finalize_network-IsWired, finalized_is_frozen}
use cloudspells.Subnets.{SubnetCidrs, split_tiers}

-- While the network is open, the first call with a fingerprint adds its rules, and a later call
-- with the same fingerprint adds nothing, whatever its rules.
add_unique_once :
    (fingerprint : Text) (added again : SlRules) (v : Vcn)
    → v.security_lists_finalized ≡ false
    → has_ambient_rule v fingerprint ≡ false
    → let w = (add_unique_security_list_rules fingerprint added v).1 in
      (w.rules ≡ extend v.rules added)
      × (has_ambient_rule w fingerprint ≡ true)
      × (add_unique_security_list_rules fingerprint again w ≡ (ok tt, w))
unfolding add_unique_security_list_rules contains
add_unique_once fingerprint added again v open_ fresh =
    rw (open_, fresh) (refl, rw text_eq_refl, rw text_eq_refl)

-- On a network that is finalized, the first call with a new fingerprint raises. It has recorded
-- the fingerprint all the same, so a retry returns as if the rules had been added, and none are.
pub add_unique_lost :
    (fingerprint : Text) (added : SlRules) (v : Vcn)
    → v.security_lists_finalized ≡ true
    → has_ambient_rule v fingerprint ≡ false
    → let (r, w) = add_unique_security_list_rules fingerprint added v in
      let (r', w') = add_unique_security_list_rules fingerprint added w in
      (r ≡ err runtime_error) × (r' ≡ ok tt) × (w'.rules ≡ v.rules)
unfolding add_unique_security_list_rules contains
add_unique_lost fingerprint added v closed fresh =
    rw (closed, fresh) (refl, rw text_eq_refl, rw text_eq_refl)

pub data Call : Type 0 where
  add : SlRules → Call
  add_unique : Text → SlRules → Call
  declare : SecurityRules → Call
  finalize : Call

unfoldable pub call : IpText → Call → Action Vcn
call ip (add added) = add_security_list_rules added
call ip (add_unique fingerprint added) = add_unique_security_list_rules fingerprint added
call ip (declare declared) = add_security_rules declared
call ip finalize = finalize_network ip

-- The caller goes on after an exception.
unfoldable pub calls : IpText → List Call → Vcn → Vcn
unfolding call
calls ip [] v = v
calls ip (c ∷ cs) v = calls ip cs (call ip c v).1

-- What a tier looks like: no subnet while the network is open, a wired one once it is closed.
abbrev pub TierState : Bool → Vcn → SubnetTier → Type 0
TierState false v tier = at_tier v.subnets tier ≡ none
TierState true v tier =
    (subnet : Subnet) × (at_tier v.subnets tier ≡ some subnet) × IsWired v tier subnet

abbrev pub IsConsistent : Vcn → Type 0
IsConsistent v = (tier : SubnetTier) → TierState v.security_lists_finalized v tier

initial_vcn-IsConsistent :
    (a : VcnArgs) (block : Text) (cidrs : SubnetCidrs) → IsConsistent (initial_vcn a block cidrs)
unfolding initial_vcn
initial_vcn-IsConsistent a block cidrs public = refl
initial_vcn-IsConsistent a block cidrs _ = refl

-- A VCN that the constructor returns is open, over the four tiers of its address block.
new_vcn-eq-ok :
    (ip : IpText) (a : VcnArgs) {v : Vcn}
    → new_vcn ip a ≡ ok v
    → (cidrs : SubnetCidrs) × (split_tiers ip (vcn_block a) ≡ ok cidrs)
      × (v ≡ initial_vcn a (vcn_block a) cidrs)
unfolding new_vcn
new_vcn-eq-ok ip a h = elim (Result-cases (split_tiers ip (vcn_block a))) [
  | inl (cidrs, e) ↦ (cidrs, e, ground arith)
  | inr (x, e) ↦ absurd (ground arith)
]

abbrev pub with_rules : Vcn → SlRules → List Text → Vcn
with_rules v rules seen = record v { rules = rules; applied_ambient_rule_fingerprints = seen }

-- What a call that adds rules leaves: the same rules in a closed network, more in an open one.
pub record IsExtension (v w : Vcn) : Type 0 where
  pub more : SlRules
  pub seen : List Text
  pub shape : w ≡ with_rules v (extend v.rules more) seen
  pub closed_same : v.security_lists_finalized ≡ true → w ≡ with_rules v v.rules seen

pub extend_none : (r : SlRules) → extend r no_rules ≡ r
extend_none r = simp append-nil

unchanged : (v : Vcn) (seen : List Text) → IsExtension v (with_rules v v.rules seen)
unchanged v seen = record {
  more = no_rules;
  seen = seen;
  shape = rw (extend_none v.rules);
  closed_same = λ _. refl;
}

pub add-IsExtension :
    (added : SlRules) (v : Vcn) (seen : List Text)
    → IsExtension v (add_security_list_rules added (with_rules v v.rules seen)).1
unfolding add_security_list_rules
add-IsExtension added v seen = elim (Bool-cases v.security_lists_finalized) [
  | inl closed ↦ rw closed (unchanged (record v { security_lists_finalized = true }) seen)
  | inr open_ ↦ rw open_ (record { more = added; seen = seen; shape = refl; closed_same = λ e. cc })
]

pub add_unique-IsExtension :
    (fingerprint : Text) (added : SlRules) (v : Vcn)
    → IsExtension v (add_unique_security_list_rules fingerprint added v).1
unfolding add_unique_security_list_rules
add_unique-IsExtension fingerprint added v = elim (Bool-cases (has_ambient_rule v fingerprint)) [
  | inl old ↦ rw old (unchanged v v.applied_ambient_rule_fingerprints)
  | inr new ↦ rw new (add-IsExtension added v (fingerprint ∷ v.applied_ambient_rule_fingerprints))
]

IsWired-with_rules :
    (v : Vcn) (seen : List Text) (tier : SubnetTier) {subnet : Subnet}
    → IsWired v tier subnet
    → IsWired (with_rules v v.rules seen) tier subnet
IsWired-with_rules v seen public x = record {
  own_cidr = x.own_cidr;
  own_ingress = x.own_ingress;
  own_egress = x.own_egress;
  own_routes = x.own_routes;
  closed_unless_public = x.closed_unless_public;
}
IsWired-with_rules v seen _ x = record {
  own_cidr = x.own_cidr;
  own_ingress = x.own_ingress;
  own_egress = x.own_egress;
  own_routes = x.own_routes;
  closed_unless_public = x.closed_unless_public;
}

IsExtension-IsConsistent : {v w : Vcn} → IsExtension v w → IsConsistent v → IsConsistent w
IsExtension-IsConsistent {v} {w} x h = elim (Bool-cases v.security_lists_finalized) [
  | inl closed ↦ subst IsConsistent (sym (x.closed_same closed)) (λ tier.
      subst (λ b. TierState b (with_rules v v.rules x.seen) tier) (sym closed)
        (let (subnet, there, wired) = subst (λ b. TierState b v tier) closed (h tier) in
          (subnet, there, IsWired-with_rules v x.seen tier wired)))
  | inr open_ ↦ subst IsConsistent (sym x.shape) (λ tier.
      subst (λ b. TierState b (with_rules v (extend v.rules x.more) x.seen) tier) (sym open_)
        (subst (λ b. TierState b v tier) open_ (h tier)))
]

finalize-IsConsistent :
    (ip : IpText) (v : Vcn) → IsConsistent v → IsConsistent (finalize_network ip v).1
finalize-IsConsistent ip v h = elim (Bool-cases v.security_lists_finalized) [
  | inl closed ↦ rw (finalized_is_frozen ip v [] no_rules no_rules closed).0 h
  | inr open_ ↦
      let (_, flag, _, wired) = finalize_network-IsWired ip v open_ in
      λ tier. subst (λ b. TierState b (finalize_network ip v).1 tier) (sym flag) (wired tier)
]

call-IsConsistent :
    (ip : IpText) (c : Call) (v : Vcn) → IsConsistent v → IsConsistent (call ip c v).1
unfolding call add_security_rules
call-IsConsistent ip finalize v h = finalize-IsConsistent ip v h
call-IsConsistent ip (add added) v h =
    IsExtension-IsConsistent (add-IsExtension added v v.applied_ambient_rule_fingerprints) h
call-IsConsistent ip (add_unique fingerprint added) v h =
    IsExtension-IsConsistent (add_unique-IsExtension fingerprint added v) h
call-IsConsistent ip (declare declared) v h =
    IsExtension-IsConsistent (add-IsExtension _ v v.applied_ambient_rule_fingerprints) h

pub calls_keep :
    (ip : IpText) (cs : List Call) (v : Vcn) → IsConsistent v → IsConsistent (calls ip cs v)
unfolding calls
calls_keep ip [] v h = h
calls_keep ip (c ∷ cs) v h = calls_keep ip cs (call ip c v).1 (call-IsConsistent ip c v h)

-- After any calls that add rules to a VCN that was constructed, or finalize it, in any order and
-- whichever of them raise: as long as it is open it has no subnets, and once it is closed each
-- tier's subnet has the tier's address range, its route table, and exactly the rules collected
-- for it.
pub calls-IsConsistent :
    (ip : IpText) (a : VcnArgs) (cs : List Call) {v : Vcn}
    → new_vcn ip a ≡ ok v
    → IsConsistent (calls ip cs v)
calls-IsConsistent ip a cs {v} h =
    let (cidrs, _, e) = new_vcn-eq-ok ip a h in
    subst (λ (w : Vcn). IsConsistent (calls ip cs w)) (sym e)
      (calls_keep ip cs _ (initial_vcn-IsConsistent a (vcn_block a) cidrs))

pub extend_assoc : (r s t : SlRules) → extend (extend r s) t ≡ extend r (extend s t)
extend_assoc r s t = simp append_assoc

call_extends :
    (ip : IpText) (c : Call) (v : Vcn)
    → (more : SlRules) × ((call ip c v).1.rules ≡ extend v.rules more)
unfolding call add_security_rules
call_extends ip finalize v = elim (Bool-cases v.security_lists_finalized) [
  | inl closed ↦ (
    no_rules,
    rw (finalized_is_frozen ip v [] no_rules no_rules closed).0 (sym (extend_none v.rules)),
  )
  | inr open_ ↦ (baseline v.args.svc_cidr_block, (finalize_network-IsWired ip v open_).2)
]
call_extends ip (add added) v =
    let x = add-IsExtension added v v.applied_ambient_rule_fingerprints in
    (x.more, ap (λ (w : Vcn). w.rules) x.shape)
call_extends ip (add_unique fingerprint added) v =
    let x = add_unique-IsExtension fingerprint added v in
    (x.more, ap (λ (w : Vcn). w.rules) x.shape)
call_extends ip (declare declared) v =
    let x = add-IsExtension _ v v.applied_ambient_rule_fingerprints in
    (x.more, ap (λ (w : Vcn). w.rules) x.shape)

-- No call that adds rules to a VCN or finalizes it removes or reorders a rule: each list of rules
-- after any such calls is the list before them with more behind it.
pub calls-extend :
    (ip : IpText) (cs : List Call) (v : Vcn)
    → (more : SlRules) × ((calls ip cs v).rules ≡ extend v.rules more)
unfolding calls
calls-extend ip [] v = (no_rules, sym (extend_none v.rules))
calls-extend ip (c ∷ cs) v =
    let (first, e) = call_extends ip c v in
    let (more, e') = calls-extend ip cs (call ip c v).1 in
    (extend first more, e' ∙ ap (λ r. extend r more) e ∙ extend_assoc v.rules first more)
