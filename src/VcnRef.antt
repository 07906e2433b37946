-- ===== src/VcnRef.antt =====
-- `VcnRef` of packages/cloudspells-oci/src/cloudspells/providers/oci/network.py: an imported VCN,
-- which takes no rules. Outputs and plain texts are one here, so an empty text counts as false.
pub mod FlowLogs
pub mod Laws
use cloudspells.Common.{
  Bool, true, false, Option, none, some, List, [], ◌∷◌, ◌++◌, if◌then◌else◌, ◌||◌,
}
use cloudspells.Common.Text.{Text, codes}
use cloudspells.Exec.{Error, Result, ok, err, value_error, runtime_error}
use cloudspells.Rules.{SlRules}

pub record VcnRefArgs : Type 0 where
  pub vcn_id : Text
  pub public_subnet_id : Text
  pub private_subnet_id : Text
  pub public_subnet_cidr : Text
  pub private_subnet_cidr : Text
  pub cidr_block : Option Text
  pub public_security_list_id : Option Text
  pub private_security_list_id : Option Text
  pub secure_subnet_id : Option Text
  pub secure_subnet_cidr : Option Text
  pub secure_security_list_id : Option Text
  pub management_subnet_id : Option Text
  pub management_subnet_cidr : Option Text
  pub management_security_list_id : Option Text
  pub drg_id : Option Text

pub record VcnRef : Type 0 where
  pub id : Text
  pub cidr_block : Text
  pub public_subnet : Text
  pub private_subnet : Text
  pub public_subnet_cidr : Text
  pub private_subnet_cidr : Text
  pub public_security_list : Option Text
  pub private_security_list : Option Text
  pub secure_subnet : Option Text
  pub secure_subnet_cidr : Option Text
  pub secure_security_list : Option Text
  pub management_subnet : Option Text
  pub management_subnet_cidr : Option Text
  pub management_security_list : Option Text
  pub drg_id : Option Text

infixl 5 ◌>>=◌
abbrev ◌>>=◌ : {A B : Type 0} → Option A → (A → Option B) → Option B
none >>= f = none
some a >>= f = f a

-- `f(x) if x else None`
abbrev pub if_truthy : Option Text → Option Text
if_truthy none = none
if_truthy (some []) = none
if_truthy (some (c ∷ s)) = some (c ∷ s)

-- `(x is None) != (y is None)`
abbrev pub one_missing : Option Text → Option Text → Bool
one_missing none none = false
one_missing (some _) (some _) = false
one_missing _ _ = true

abbrev imported : VcnRefArgs → Text → VcnRef
imported a cidr_block = record {
  id = a.vcn_id;
  cidr_block = cidr_block;
  public_subnet = a.public_subnet_id;
  private_subnet = a.private_subnet_id;
  public_subnet_cidr = a.public_subnet_cidr;
  private_subnet_cidr = a.private_subnet_cidr;
  public_security_list = if_truthy a.public_security_list_id;
  private_security_list = if_truthy a.private_security_list_id;
  secure_subnet = if_truthy a.secure_subnet_id;
  secure_subnet_cidr = a.secure_subnet_cidr;
  secure_security_list = if_truthy a.secure_security_list_id;
  management_subnet = if_truthy a.management_subnet_id;
  management_subnet_cidr = a.management_subnet_cidr;
  management_security_list = if_truthy a.management_security_list_id;
  drg_id = if_truthy a.drg_id;
}

unfoldable pub new_vcn_ref : VcnRefArgs → Result VcnRef
new_vcn_ref a = elim a.cidr_block [
  | none ↦ err value_error
  | some cidr_block ↦
      if one_missing a.secure_subnet_id a.secure_subnet_cidr
      then err value_error
      else if one_missing a.management_subnet_id a.management_subnet_cidr
      then err value_error
      else ok (imported a cidr_block)
]

abbrev named : {A : Type 0} → Text → List A → List Text
named name [] = []
named name (_ ∷ _) = name ∷ []

-- The rule sets that were asked for, by name.
unfoldable pub requested : SlRules → List Text
requested r =
    named (codes "public_ingress") r.public_ingress
    ++ (named (codes "public_egress") r.public_egress
        ++ (named (codes "private_ingress") r.private_ingress
            ++ (named (codes "private_egress") r.private_egress
                ++ (named (codes "secure_ingress") r.secure_ingress
                    ++ (named (codes "secure_egress") r.secure_egress
                        ++ (named (codes "management_ingress") r.management_ingress
                            ++ named (codes "management_egress") r.management_egress))))))

unfoldable pub ref_add_security_list_rules : VcnRef → SlRules → Result (Unit {0})
unfolding requested
ref_add_security_list_rules ref added = elim (requested added) [
  | [] ↦ ok tt
  | _ ∷ _ ↦ err runtime_error
]

-- Ambient rules are left to the stack that owns the network.
unfoldable pub ref_add_unique_security_list_rules : VcnRef → Text → SlRules → Result (Unit {0})
ref_add_unique_security_list_rules ref fingerprint added = ok tt

abbrev pub required : Error → Option Text → Result Text
required e none = err e
required e (some t) = ok t

unfoldable pub ref_get_secure_subnet_cidr : VcnRef → Result Text
ref_get_secure_subnet_cidr ref = required value_error ref.secure_subnet_cidr

unfoldable pub ref_get_management_subnet_cidr : VcnRef → Result Text
ref_get_management_subnet_cidr ref = required value_error ref.management_subnet_cidr

unfoldable pub ref_get_secure_subnet_id : VcnRef → Result Text
ref_get_secure_subnet_id ref = required runtime_error ref.secure_subnet

unfoldable pub ref_get_management_subnet_id : VcnRef → Result Text
ref_get_management_subnet_id ref = required runtime_error ref.management_subnet

-- `VcnRef.from_stack_reference`, with the outputs of the other stack by key. An output is an object
-- even where the key is missing, so that no check of the constructor fires and none counts as
-- false. `none` stands for a reference in which an output that it needs has no value.
unfoldable pub from_stack_reference : (Text → Option Text) → Option VcnRef
from_stack_reference outputs = do
  vcn_id ← outputs (codes "vcn_id")
  public_subnet_id ← outputs (codes "public_subnet_id")
  private_subnet_id ← outputs (codes "private_subnet_id")
  public_subnet_cidr ← outputs (codes "public_subnet_cidr")
  private_subnet_cidr ← outputs (codes "private_subnet_cidr")
  cidr_block ← outputs (codes "cidr_block")
  some (record {
    id = vcn_id;
    cidr_block = cidr_block;
    public_subnet = public_subnet_id;
    private_subnet = private_subnet_id;
    public_subnet_cidr = public_subnet_cidr;
    private_subnet_cidr = private_subnet_cidr;
    public_security_list = outputs (codes "public_security_list_id");
    private_security_list = outputs (codes "private_security_list_id");
    secure_subnet = outputs (codes "secure_subnet_id");
    secure_subnet_cidr = outputs (codes "secure_subnet_cidr");
    secure_security_list = outputs (codes "secure_security_list_id");
    management_subnet = outputs (codes "management_subnet_id");
    management_subnet_cidr = outputs (codes "management_subnet_cidr");
    management_security_list = outputs (codes "management_security_list_id");
    drg_id = outputs (codes "drg_id");
  })
