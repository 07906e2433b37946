-- ===== src/Vcn/Ledger.antt =====
-- What the rules of a network are, from the list of calls that were made on it alone.
use cloudspells.Common.{
  ◌≡◌, refl, sym, ap, ◌∙◌, Bool, true, false, List, [], ◌∷◌, Bool-cases, inl, inr, if◌then◌else◌,
}
use cloudspells.Common.Text.{Text, contains}
use cloudspells.IpNetwork.{IpText}
use cloudspells.Rules.{SlRules, extend, no_rules}
use cloudspells.Vcn.Defs.{
  Vcn, add_security_list_rules, add_unique_security_list_rules, add_security_rules,
  has_ambient_rule, translated,
}
use cloudspells.Vcn.Finalize.{finalize_network, baseline}
use cloudspells.Vcn.Lifecycle.{finalized_is_frozen, finalize_network_open, sealed}
use cloudspells.Vcn.Collect.{
  Call, add, add_unique, declare, finalize, call, calls, with_rules, extend_none, extend_assoc,
  IsExtension, add-IsExtension, add_unique-IsExtension,
}

-- The rules that the calls enter, in order: those of each call up to the first `finalize_network`,
-- under a fingerprint only the first time that it is used, and then the baseline. `taken` are the
-- fingerprints in use already, `svc` is the CIDR of the services.
unfoldable pub entered : Text → List Text → List Call → SlRules
entered svc taken [] = no_rules
entered svc taken (add added ∷ cs) = extend added (entered svc taken cs)
entered svc taken (declare declared ∷ cs) = extend (translated svc declared) (entered svc taken cs)
entered svc taken (add_unique fingerprint added ∷ cs) =
    let old = entered svc taken cs in
    let new = extend added (entered svc (fingerprint ∷ taken) cs) in
    if contains taken fingerprint then old else new
entered svc taken (finalize ∷ cs) = baseline svc

-- `finalize_network` is among the calls.
unfoldable pub finalizes : List Call → Bool
finalizes [] = false
finalizes (finalize ∷ cs) = true
finalizes (c ∷ cs) = finalizes cs

-- The rules and the flag of a network that is finalized.
abbrev Stays : Vcn → Vcn → Type 0
Stays v w = (w.rules ≡ v.rules) × (w.security_lists_finalized ≡ true)

extension-Stays : {v w : Vcn} → IsExtension v w → v.security_lists_finalized ≡ true → Stays v w
extension-Stays x closed =
    let e = x.closed_same closed in
    (ap (λ (u : Vcn). u.rules) e, ap (λ (u : Vcn). u.security_lists_finalized) e ∙ closed)

call-Stays :
    (ip : IpText) (c : Call) (v : Vcn) → v.security_lists_finalized ≡ true → Stays v (call ip c v).1
unfolding call add_security_rules
call-Stays ip finalize v closed =
    rw (finalized_is_frozen ip v [] no_rules no_rules closed).0 (refl, closed)
call-Stays ip (add added) v closed =
    extension-Stays (add-IsExtension added v v.applied_ambient_rule_fingerprints) closed
call-Stays ip (add_unique fingerprint added) v closed =
    extension-Stays (add_unique-IsExtension fingerprint added v) closed
call-Stays ip (declare declared) v closed =
    extension-Stays (add-IsExtension _ v v.applied_ambient_rule_fingerprints) closed

calls-Stays :
    (ip : IpText) (cs : List Call) (v : Vcn)
    → v.security_lists_finalized ≡ true
    → Stays v (calls ip cs v)
unfolding calls
calls-Stays ip [] v closed = (refl, closed)
calls-Stays ip (c ∷ cs) v closed =
    let (same, still) = call-Stays ip c v closed in
    let (more, after) = calls-Stays ip cs (call ip c v).1 still in (more ∙ same, after)

-- What the theorem says of a network at which the calls start.
abbrev Told : IpText → List Call → Vcn → Type 0
Told ip cs v =
    ((calls ip cs v).rules
      ≡ extend v.rules (entered v.args.svc_cidr_block v.applied_ambient_rule_fingerprints cs))
    × ((calls ip cs v).security_lists_finalized ≡ finalizes cs)

finalize-Told :
    (ip : IpText) (cs : List Call) (v : Vcn)
    → v.security_lists_finalized ≡ false
    → Told ip (finalize ∷ cs) v
unfolding calls call entered finalizes sealed
finalize-Told ip cs v open_ =
    let (logs, e) = finalize_network_open ip v open_ in
    let w : Vcn = (finalize_network ip v).1 in
    let made : w ≡ record (sealed ip v) { flow_logs = logs } = ap (λ p. p.1) e in
    let (same, still) = calls-Stays ip cs w (ap (λ (u : Vcn). u.security_lists_finalized) made) in
    (same ∙ ap (λ (u : Vcn). u.rules) made, still)

after_call :
    (ip : IpText) (c : Call) (cs : List Call) (v : Vcn) {w : Vcn} {r : SlRules} {closed : Bool}
    → (call ip c v).1 ≡ w
    → ((calls ip cs w).rules ≡ r) × ((calls ip cs w).security_lists_finalized ≡ closed)
    → ((calls ip (c ∷ cs) v).rules ≡ r) × ((calls ip (c ∷ cs) v).security_lists_finalized ≡ closed)
unfolding calls
after_call ip c cs v e (rules, flag) = (
  ap (λ u. (calls ip cs u).rules) e ∙ rules,
  ap (λ u. (calls ip cs u).security_lists_finalized) e ∙ flag,
)

-- The rules of a network are its first ones, and behind them those that the calls entered before
-- the first `finalize_network`, a fingerprint's only once, with the baseline at the end if there is
-- such a call; later calls enter nothing. The network is finalized exactly if there is one.
pub calls-entered :
    (ip : IpText) (cs : List Call) (v : Vcn)
    → v.security_lists_finalized ≡ false
    → ((calls ip cs v).rules
        ≡ extend v.rules (entered v.args.svc_cidr_block v.applied_ambient_rule_fingerprints cs))
      × ((calls ip cs v).security_lists_finalized ≡ finalizes cs)
unfolding calls call entered finalizes add_security_list_rules add_security_rules
    add_unique_security_list_rules has_ambient_rule
calls-entered ip [] v open_ = (sym (extend_none v.rules), open_)
calls-entered ip (finalize ∷ cs) v open_ = finalize-Told ip cs v open_
calls-entered ip (add added ∷ cs) v open_ =
    let (more, flag) = calls-entered ip cs (record v { rules = extend v.rules added }) open_ in
    after_call ip (add added) cs v (simp open_ refl) (more ∙ extend_assoc v.rules added _, flag)
calls-entered ip (declare declared ∷ cs) v open_ =
    let added = translated v.args.svc_cidr_block declared in
    let (more, flag) = calls-entered ip cs (record v { rules = extend v.rules added }) open_ in
    after_call ip (declare declared) cs v (simp open_ refl)
      (more ∙ extend_assoc v.rules added _, flag)
calls-entered ip (add_unique fingerprint added ∷ cs) v open_ =
    elim (Bool-cases (contains v.applied_ambient_rule_fingerprints fingerprint)) [
      | inl old ↦ simp old (calls-entered ip cs v open_)
      | inr new ↦
          let seen = fingerprint ∷ v.applied_ambient_rule_fingerprints in
          let (more, flag) = calls-entered ip cs (with_rules v (extend v.rules added) seen) open_ in
          after_call ip (add_unique fingerprint added) cs v (simp (new, open_) refl)
            (simp new (more ∙ extend_assoc v.rules added _), flag)
    ]
