-- ===== src/Vcn/Depth.antt =====
-- The nesting of `finalize_network` in itself: `VcnFlowLogs` calls it again.
use cloudspells.Common.{
  ◌≡◌, ◌≢◌, refl, sym, ap, ◌∙◌, ℕ, suc, [], Bool-cases, Option-cases, inl, inr, arith,
}
use cloudspells.Exec.{Result, err, recursion_error}
use cloudspells.IpNetwork.{IpText}
use cloudspells.Rules.{no_rules}
use cloudspells.Vcn.Defs.{Vcn, VcnArgs}
use cloudspells.Vcn.FlowLogs.{valid_retention}
use cloudspells.Vcn.Finalize.{finalize_from, finalize_network}
use cloudspells.Vcn.Lifecycle.{
  rest_of_finalize, rest_with_logs, finalize_from_open, finalize_from_sealed, sealed,
  finalize_outcome, finalize_network_open, finalized_is_frozen,
}

rest_same :
    (depth : ℕ) (ip : IpText) (v : Vcn)
    → rest_of_finalize (finalize_from (suc depth) ip) v.args.flow_logs (sealed ip v)
      ≡ rest_of_finalize (finalize_from 1 ip) v.args.flow_logs (sealed ip v)
rest_same depth ip v = elim (Bool-cases v.args.flow_logs) [
  | inl on ↦ rest_with_logs depth ip v on ∙ sym (rest_with_logs 0 ip v on)
  | inr off ↦ simp off refl
]

deeper :
    (depth : ℕ) (ip : IpText) (v : Vcn)
    → finalize_from (suc (suc depth)) ip v ≡ finalize_from 2 ip v
deeper depth ip v = elim (Bool-cases v.security_lists_finalized) [
  | inl closed ↦
      finalize_from_sealed (suc depth) ip v closed ∙ sym (finalize_from_sealed 1 ip v closed)
  | inr open_ ↦
      finalize_from_open (suc depth) ip v open_
      ∙ rest_same depth ip v
      ∙ sym (finalize_from_open 1 ip v open_)
]

outcome_ends : (a : VcnArgs) → finalize_outcome a ≢ err recursion_error
outcome_ends a h = elim (Bool-cases a.flow_logs) [
  | inr off ↦ ground arith
  | inl on ↦ elim (Option-cases a.compartment_id) [
    | inl without ↦ ground arith
    | inr (c, e) ↦ elim (Bool-cases (valid_retention a.flow_logs_retention)) [
      | inl good ↦ ground arith
      | inr bad ↦ ground arith
    ]
  ]
]

never : (ip : IpText) (v : Vcn) → (finalize_network ip v).0 ≢ err recursion_error
never ip v h = elim (Bool-cases v.security_lists_finalized) [
  | inl closed ↦
      let e = (finalized_is_frozen ip v [] no_rules no_rules closed).0 in
      absurd (ground (arith, ap (λ (r : Result Unit × Vcn). r.0) e))
  | inr open_ ↦
      let (logs, e) = finalize_network_open ip v open_ in
      outcome_ends v.args (sym (ap (λ (r : Result Unit × Vcn). r.0) e) ∙ h)
]

-- The nested calls of `finalize_network` end: two levels of nesting are enough, deeper levels
-- change neither the result nor the network, and no call raises `RecursionError`.
pub finalize_network-ends :
    (depth : ℕ) (ip : IpText) (v : Vcn)
    → (finalize_from (suc (suc depth)) ip v ≡ finalize_network ip v)
      × ((finalize_network ip v).0 ≢ err recursion_error)
unfolding finalize_network
finalize_network-ends depth ip v = (deeper depth ip v, λ h. never ip v h)
