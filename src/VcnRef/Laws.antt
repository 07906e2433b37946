-- ===== src/VcnRef/Laws.antt =====
-- When a reference to an imported VCN can be made, and what it answers.
use cloudspells.Common.{◌≡◌, ◌≢◌, refl, false, Option, none, some, [], ◌∷◌, arith, ◌↔◌}
use cloudspells.Common.Text.{Text}
use cloudspells.Exec.{Result, ok, err, value_error, runtime_error}
use cloudspells.Rules.{SlRules, no_rules}
use cloudspells.VcnRef.{
  VcnRefArgs, VcnRef, new_vcn_ref, ref_add_security_list_rules, ref_get_secure_subnet_cidr,
  ref_get_management_subnet_cidr, ref_get_secure_subnet_id, ref_get_management_subnet_id,
  one_missing, if_truthy, required,
}

-- An optional tier of a reference is either all there or all absent.
abbrev pub IsWhole : Result Text → Result Text → Type 0
IsWhole (ok id) (ok cidr) = Unit
IsWhole (err e) (err e') = Unit
IsWhole _ _ = ⊥

whole :
    (id cidr : Option Text)
    → id ≢ some []
    → one_missing id cidr ≡ false
    → IsWhole (required runtime_error (if_truthy id)) (required value_error cidr)
whole none none h e = tt
whole (some []) _ h e = absurd (h refl)
whole (some (c ∷ s)) (some cidr) h e = tt
whole none (some cidr) h e = cc
whole (some (c ∷ s)) none h e = cc

-- What the constructor checked, and the attributes that the checks are about.
new_vcn_ref-eq-ok :
    (a : VcnRefArgs) {ref : VcnRef}
    → new_vcn_ref a ≡ ok ref
    → (one_missing a.secure_subnet_id a.secure_subnet_cidr ≡ false)
      × (one_missing a.management_subnet_id a.management_subnet_cidr ≡ false)
      × (ref.secure_subnet ≡ if_truthy a.secure_subnet_id)
      × (ref.secure_subnet_cidr ≡ a.secure_subnet_cidr)
      × (ref.management_subnet ≡ if_truthy a.management_subnet_id)
      × (ref.management_subnet_cidr ≡ a.management_subnet_cidr)
unfolding new_vcn_ref
new_vcn_ref-eq-ok a h = ground arith

-- In a reference that the constructor returns, the id and the CIDR of the secure tier are both
-- there or both missing, and so are those of the management tier, if no id is an empty text.
pub new_vcn_ref-IsWhole :
    (a : VcnRefArgs) {ref : VcnRef}
    → a.secure_subnet_id ≢ some []
    → a.management_subnet_id ≢ some []
    → new_vcn_ref a ≡ ok ref
    → IsWhole (ref_get_secure_subnet_id ref) (ref_get_secure_subnet_cidr ref)
      × IsWhole (ref_get_management_subnet_id ref) (ref_get_management_subnet_cidr ref)
unfolding new_vcn_ref ref_get_secure_subnet_id ref_get_secure_subnet_cidr
    ref_get_management_subnet_id ref_get_management_subnet_cidr
new_vcn_ref-IsWhole a {ref} s m h =
    let (secure_pair, management_pair, sid, scidr, mid, mcidr) = new_vcn_ref-eq-ok a h in
    (
      rw (sid, scidr) (whole a.secure_subnet_id a.secure_subnet_cidr s secure_pair),
      rw (mid, mcidr) (whole a.management_subnet_id a.management_subnet_cidr m management_pair),
    )

-- An imported VCN refuses rules: the call succeeds exactly when every set of rules is empty.
ref_refuses_rules :
    (ref : VcnRef) (added : SlRules)
    → (ref_add_security_list_rules ref added ≡ ok tt) ↔ (added ≡ no_rules)
unfolding ref_add_security_list_rules
ref_refuses_rules ref added = (λ h. ground arith, λ e. rw e)
