-- ===== src/Vcn/Frame.antt =====
-- What no call on a network changes: what it was constructed with, and the tiers' address ranges.
use cloudspells.Common.{◌≡◌, refl, ap, ◌∙◌, List, [], ◌∷◌, Bool-cases, inl, inr}
use cloudspells.IpNetwork.{IpText}
use cloudspells.Rules.{no_rules}
use cloudspells.Subnets.{SubnetCidrs}
use cloudspells.Vcn.Defs.{Vcn, VcnArgs, add_security_rules}
use cloudspells.Vcn.Finalize.{finalize_network}
use cloudspells.Vcn.Lifecycle.{finalize_network_open, finalized_is_frozen, sealed}
use cloudspells.Vcn.Collect.{
  Call, add, add_unique, declare, finalize, call, calls, IsExtension, add-IsExtension,
  add_unique-IsExtension,
}

abbrev pub frame : Vcn → VcnArgs × SubnetCidrs
frame v = (v.args, v.subnet_cidrs)

IsExtension-frame : {v w : Vcn} → IsExtension v w → frame w ≡ frame v
IsExtension-frame x = ap frame x.shape

pub finalize-frame : (ip : IpText) (v : Vcn) → frame (finalize_network ip v).1 ≡ frame v
unfolding sealed
finalize-frame ip v = elim (Bool-cases v.security_lists_finalized) [
  | inl closed ↦ rw (finalized_is_frozen ip v [] no_rules no_rules closed).0 refl
  | inr open_ ↦ let (logs, e) = finalize_network_open ip v open_ in rw e refl
]

call-frame : (ip : IpText) (c : Call) (v : Vcn) → frame (call ip c v).1 ≡ frame v
unfolding call add_security_rules
call-frame ip finalize v = finalize-frame ip v
call-frame ip (add added) v =
    IsExtension-frame (add-IsExtension added v v.applied_ambient_rule_fingerprints)
call-frame ip (add_unique fingerprint added) v =
    IsExtension-frame (add_unique-IsExtension fingerprint added v)
call-frame ip (declare declared) v =
    IsExtension-frame (add-IsExtension _ v v.applied_ambient_rule_fingerprints)

pub calls-frame : (ip : IpText) (cs : List Call) (v : Vcn) → frame (calls ip cs v) ≡ frame v
unfolding calls
calls-frame ip [] v = refl
calls-frame ip (c ∷ cs) v = calls-frame ip cs (call ip c v).1 ∙ call-frame ip c v
