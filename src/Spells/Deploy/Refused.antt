-- ===== src/Spells/Deploy/Refused.antt =====
-- The steps of the spells on a network that is finalized already.
use cloudspells.Common.{
  ℕ, ◌≡◌, refl, ap, ◌∙◌, Bool, true, false, Option, none, some, List, [], ◌∷◌, Bool-cases, ◌⊎◌, inl,
  inr,
}
use mathlib.Core.Path.{subst}
use cloudspells.Common.Text.{Text}
use cloudspells.Exec.{Result, ok, err, value_error, runtime_error, ◌>>◌}
use cloudspells.IpNetwork.{IpText}
use cloudspells.Roles.{SubnetTier, at_tier}
use cloudspells.Rules.{SlRules, no_rules}
use cloudspells.Vcn.Defs.{
  Vcn, Subnet, add_security_list_rules, add_unique_security_list_rules, add_security_rules,
  has_ambient_rule,
}
use cloudspells.Vcn.Lifecycle.{finalized_is_frozen}
use cloudspells.Vcn.Collect.{
  Call, add, add_unique, declare, finalize, call, calls, with_rules, IsConsistent, TierState,
  add-IsExtension, add_unique-IsExtension,
}
use cloudspells.Spells.Site.{Site}
use cloudspells.Spells.LoadBalancer.{lb_security_rules, ilb_security_rules}
use cloudspells.Spells.Workload.{
  Encoding, OciLoadBalancerConfig, Script, text_script, bytes_script, encoded_script,
  workload_security_rules, starts_shebang,
}

call_closed :
    (ip : IpText) (c : Call) (v : Vcn)
    → v.security_lists_finalized ≡ true
    → (seen : List Text) × ((call ip c v).1 ≡ with_rules v v.rules seen)
unfolding call add_security_rules
call_closed ip finalize v closed = (
  v.applied_ambient_rule_fingerprints,
  ap (λ (r : Result Unit × Vcn). r.1) (finalized_is_frozen ip v [] no_rules no_rules closed).0,
)
call_closed ip (add added) v closed =
    let x = add-IsExtension added v v.applied_ambient_rule_fingerprints in
    (x.seen, x.closed_same closed)
call_closed ip (add_unique fingerprint added) v closed =
    let x = add_unique-IsExtension fingerprint added v in (x.seen, x.closed_same closed)
call_closed ip (declare declared) v closed =
    let x = add-IsExtension _ v v.applied_ambient_rule_fingerprints in
    (x.seen, x.closed_same closed)

-- Nothing but recorded fingerprints changes.
pub calls_closed :
    (ip : IpText) (cs : List Call) (v : Vcn)
    → v.security_lists_finalized ≡ true
    → (seen : List Text) × (calls ip cs v ≡ with_rules v v.rules seen)
unfolding calls
calls_closed ip [] v closed = (v.applied_ambient_rule_fingerprints, refl)
calls_closed ip (c ∷ cs) v closed =
    let (seen, e) = call_closed ip c v closed in
    let (more, e') = calls_closed ip cs (with_rules v v.rules seen) closed in
    (more, ap (calls ip cs) e ∙ e')

add_unique_closed :
    (f : Text) (r : SlRules) (v : Vcn)
    → v.security_lists_finalized ≡ true
    → (add_unique_security_list_rules f r v ≡ (ok tt, v))
      ⊎ ((add_unique_security_list_rules f r v).0 ≡ err runtime_error)
unfolding add_unique_security_list_rules add_security_list_rules
add_unique_closed f r v closed = elim (Bool-cases (has_ambient_rule v f)) [
  | inl old ↦ inl (rw old refl)
  | inr new ↦ inr (simp (new, closed) refl)
]

one_ambient_closed :
    (f : Text) (r s : SlRules) (v : Vcn)
    → v.security_lists_finalized ≡ true
    → ((do add_unique_security_list_rules f r; add_security_list_rules s) v).0 ≡ err runtime_error
unfolding add_security_list_rules
one_ambient_closed f r s v closed = elim (add_unique_closed f r v closed) [
  | inl e ↦ rw e (simp closed refl)
  | inr e ↦ rw e refl
]

two_ambient_closed :
    (f g : Text) (q r s : SlRules) (v : Vcn)
    → v.security_lists_finalized ≡ true
    → ((do
      add_unique_security_list_rules f q
      add_unique_security_list_rules g r
      add_security_list_rules s)
        v).0
      ≡ err runtime_error
two_ambient_closed f g q r s v closed = elim (add_unique_closed f q v closed) [
  | inl e ↦ rw e (one_ambient_closed g r s v closed)
  | inr e ↦ rw e refl
]

-- The subnets of a consistent network that is closed are there.
pub subnets_there :
    (v : Vcn) (tier : SubnetTier)
    → v.security_lists_finalized ≡ true
    → IsConsistent v
    → (subnet : Subnet) × (at_tier v.subnets tier ≡ some subnet)
subnets_there v tier closed h =
    let (subnet, e, _) = subst (λ b. TierState b v tier) closed (h tier) in (subnet, e)

pub accepts_script : Option Script → Bool
accepts_script none = true
accepts_script (some (text_script [])) = true
accepts_script (some (text_script (c ∷ s))) = starts_shebang (c ∷ s)
accepts_script (some (bytes_script s)) = true

pub lb_rules_closed :
    (port : ℕ) (v : Vcn)
    → v.security_lists_finalized ≡ true
    → (lb_security_rules port v).0 ≡ err runtime_error
unfolding lb_security_rules
lb_rules_closed port v closed = two_ambient_closed _ _ _ _ _ v closed

pub ilb_rules_closed :
    (port : ℕ) (v : Vcn)
    → v.security_lists_finalized ≡ true
    → (ilb_security_rules port v).0 ≡ err runtime_error
unfolding ilb_security_rules
ilb_rules_closed port v closed = one_ambient_closed _ _ _ v closed

pub workload_rules_closed :
    (c : OciLoadBalancerConfig) (v : Vcn)
    → v.security_lists_finalized ≡ true
    → (workload_security_rules c v).0 ≡ err runtime_error
unfolding workload_security_rules add_security_list_rules
workload_rules_closed c v closed = elim (Bool-cases c.is_public) [
  | inl e ↦ simp e (two_ambient_closed _ _ _ _ _ v closed)
  | inr e ↦ simp (e, closed) refl
]

pub script_cases :
    (e : Encoding) (script : Option Script)
    → ((t : Option Text) × ((s : Site) → encoded_script e script s ≡ (ok t, s))
        × (accepts_script script ≡ true))
      ⊎ (((s : Site) → encoded_script e script s ≡ (err value_error, s))
          × (accepts_script script ≡ false))
unfolding encoded_script accepts_script
script_cases e none = inl (none, λ s. refl, refl)
script_cases e (some (text_script [])) = inl (_, λ s. refl, refl)
script_cases e (some (text_script (c ∷ t))) = elim (Bool-cases (starts_shebang (c ∷ t))) [
  | inl h ↦ inl (some (e.b64encode (e.encode (c ∷ t))), λ s. rw h refl, h)
  | inr h ↦ inr (λ s. rw h refl, h)
]
script_cases e (some (bytes_script t)) = inl (_, λ s. refl, refl)
