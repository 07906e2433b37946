-- ===== src/Vcn/Export.antt =====
-- `export`: a stack publishes its network, and another stack imports it.
use mathlib.Core.Path.{fun_ext}
use cloudspells.Common.{
  ◌≡◌, refl, ◌∙◌, ap, Bool, true, false, Option, none, some, List, [], ◌∷◌, ◌++◌, if◌then◌else◌,
}
use cloudspells.Common.Text.{Text, codes, text_eq}
use cloudspells.Exec.{
  Exec, Result, ok, Error, runtime_error, attribute_error, raise, pure, gets, ◌>>=◌, ◌>>◌,
}
use cloudspells.IpNetwork.{IpText}
use cloudspells.Naming.{create_resource_name}
use cloudspells.Roles.{PerTier, public, private, secure, management}
use cloudspells.Vcn.Defs.{Vcn, VcnFlowLogs, SecurityList, Subnet, namer, subnet_cidr}
use cloudspells.Rules.{extend}
use cloudspells.Vcn.Finalize.{
  baseline, all_some, finalize_network, create_subnet, security_lists_of,
}
use cloudspells.Vcn.Lifecycle.{sealed, finalize_outcome, finalize_network_open}
use cloudspells.VcnRef.{
  VcnRef, from_stack_reference, ref_get_secure_subnet_cidr, ref_get_management_subnet_cidr,
}

abbrev pub Outputs : Type 0
Outputs = List (Text × Text)

-- What a stack has published under a key, if anything.
unfoldable pub lookup : Outputs → Text → Option Text
lookup [] key = none
lookup ((k, value) ∷ outputs) key =
    let rest = lookup outputs key in if text_eq k key then some value else rest

abbrev given : {A : Type 0} → Error → Option A → Exec Vcn A
given e none = raise e
given e (some a) = pure a

-- The id of a resource of the network.
abbrev id_of : (Text → Text) → Vcn → Text → Text
id_of ids v suffix = ids (create_resource_name (namer v.args) suffix)

-- The gateway and its attachment are both there where `drg` is enabled.
abbrev drg_outputs : Bool → Text → Text → Outputs
drg_outputs drg drg_id attachment_id =
    if drg then (codes "drg_id", drg_id) ∷ (codes "drg_attachment_id", attachment_id) ∷ [] else []

abbrev log_outputs : (Text → Text) → Option VcnFlowLogs → Outputs
log_outputs ids none = []
log_outputs ids (some logs) = (codes "network_audit_log_group_id", ids logs.log_group) ∷ []

-- The fourteen keys, and those of the gateway and the logs.
unfoldable pub published : (Text → Text) → Vcn → PerTier Subnet → PerTier SecurityList → Outputs
published ids v subnets lists =
    (codes "vcn_id", ids (create_resource_name (namer v.args) (codes "vcn")))
    ∷ (codes "cidr_block", v.block)
    ∷ (codes "public_subnet_id", ids subnets.at_public.display_name)
    ∷ (codes "private_subnet_id", ids subnets.at_private.display_name)
    ∷ (codes "secure_subnet_id", ids subnets.at_secure.display_name)
    ∷ (codes "public_subnet_cidr", subnet_cidr v public)
    ∷ (codes "private_subnet_cidr", subnet_cidr v private)
    ∷ (codes "secure_subnet_cidr", subnet_cidr v secure)
    ∷ (codes "public_security_list_id", ids lists.at_public.display_name)
    ∷ (codes "private_security_list_id", ids lists.at_private.display_name)
    ∷ (codes "secure_security_list_id", ids lists.at_secure.display_name)
    ∷ (codes "management_subnet_id", ids subnets.at_management.display_name)
    ∷ (codes "management_subnet_cidr", subnet_cidr v management)
    ∷ (codes "management_security_list_id", ids lists.at_management.display_name)
    ∷ (drg_outputs v.args.drg (id_of ids v (codes "drg")) (id_of ids v (codes "drg-attach"))
        ++ log_outputs ids v.flow_logs)

-- `export` after its call of `finalize_network`
publish : (Text → Text) → Exec Vcn Outputs
unfolding published
publish ids = do
  v ← gets (λ (v : Vcn). v)
  public_subnet ← given runtime_error v.subnets.at_public
  private_subnet ← given runtime_error v.subnets.at_private
  secure_subnet ← given runtime_error v.subnets.at_secure
  management_subnet ← given runtime_error v.subnets.at_management
  public_list ← given attribute_error v.security_lists.at_public
  private_list ← given attribute_error v.security_lists.at_private
  secure_list ← given attribute_error v.security_lists.at_secure
  management_list ← given attribute_error v.security_lists.at_management
  pure (
      published ids v
        (record {
          at_public = public_subnet;
          at_private = private_subnet;
          at_secure = secure_subnet;
          at_management = management_subnet;
        })
        (record {
          at_public = public_list;
          at_private = private_list;
          at_secure = secure_list;
          at_management = management_list;
        }))

-- `export`, with the outputs that it publishes. `ids` are the ids that resources get, by name.
unfoldable pub export : IpText → (Text → Text) → Exec Vcn Outputs
unfolding publish
export ip ids = do finalize_network ip; publish ids

-- An imported network stands for a live one: the same address ranges in every tier, and the ids of
-- the network and of its gateway to on-premise networks.
pub record IsImport (ids : Text → Text) (v : Vcn) (ref : VcnRef) : Type 0 where
  pub same_id : ref.id ≡ id_of ids v (codes "vcn")
  pub same_drg : ref.drg_id ≡ (if v.args.drg then some (id_of ids v (codes "drg")) else none)
  pub same_block : ref.cidr_block ≡ v.block
  pub same_public : ref.public_subnet_cidr ≡ subnet_cidr v public
  pub same_private : ref.private_subnet_cidr ≡ subnet_cidr v private
  pub same_secure : ref_get_secure_subnet_cidr ref ≡ ok (subnet_cidr v secure)
  pub same_management : ref_get_management_subnet_cidr ref ≡ ok (subnet_cidr v management)

publish-eq :
    (ids : Text → Text) (v : Vcn) (subnets : PerTier Subnet) (lists : PerTier SecurityList)
    → v.subnets ≡ all_some subnets
    → v.security_lists ≡ all_some lists
    → publish ids v ≡ (ok (published ids v subnets lists), v)
unfolding publish
publish-eq ids v subnets lists e e' = rw (e, e')

drg_id-eq :
    (ids : Text → Text) (drg : Bool) (drg_id attachment_id : Text) (logs : Option VcnFlowLogs)
    → lookup (drg_outputs drg drg_id attachment_id ++ log_outputs ids logs) (codes "drg_id")
      ≡ (if drg then some drg_id else none)
unfolding lookup text_eq codes
drg_id-eq ids true drg_id attachment_id logs = refl
drg_id-eq ids false drg_id attachment_id none = refl
drg_id-eq ids false drg_id attachment_id (some logs) = refl

-- What the other stack reads.
published-IsImport :
    (ids : Text → Text) (v : Vcn) (subnets : PerTier Subnet) (lists : PerTier SecurityList)
    → (ref : VcnRef) × (from_stack_reference (lookup (published ids v subnets lists)) ≡ some ref)
      × IsImport ids v ref
unfolding published from_stack_reference lookup text_eq codes ref_get_secure_subnet_cidr
    ref_get_management_subnet_cidr
published-IsImport ids v subnets lists = (
  _,
  refl,
  record {
    same_id = refl;
    same_drg = drg_id-eq ids v.args.drg _ _ v.flow_logs;
    same_block = refl;
    same_public = refl;
    same_private = refl;
    same_secure = refl;
    same_management = refl;
  },
)

-- Publishing an open network returns if `finalize_outcome` is no error, and a stack that imports
-- what is published gets a reference with the id, the block, the four address ranges and the DRG
-- of the network, where Pulumi's `get_output` reads what is published under a key.
pub export-IsImport :
    (get_output : Outputs → Text → Option Text)
    → ((outputs : Outputs) (key : Text) → get_output outputs key ≡ lookup outputs key)
    → (ip : IpText) (ids : Text → Text) (v : Vcn) → v.security_lists_finalized ≡ false
    → finalize_outcome v.args ≡ ok tt
    → (outputs : Outputs) × ((export ip ids v).0 ≡ ok outputs)
      × (ref : VcnRef) × (from_stack_reference (get_output outputs) ≡ some ref)
      × IsImport ids v ref
unfolding export sealed
export-IsImport get_output reads ip ids v open_ fine =
    let (logs, e) = finalize_network_open ip v open_ in
    let w = record (sealed ip v) { flow_logs = logs } in
    let collected = record v { rules = extend v.rules (baseline v.args.svc_cidr_block) } in
    let lists = security_lists_of collected in
    let subnets : PerTier Subnet = record {
      at_public = create_subnet ip collected public lists.at_public;
      at_private = create_subnet ip collected private lists.at_private;
      at_secure = create_subnet ip collected secure lists.at_secure;
      at_management = create_subnet ip collected management lists.at_management;
    } in
    let (ref, imports, same) = published-IsImport ids w subnets lists in
    (
      published ids w subnets lists,
      rw (e, fine)
          (ap (λ (r : Result Outputs × Vcn). r.0) (publish-eq ids w subnets lists refl refl)),
      ref,
      ap from_stack_reference (fun_ext (reads (published ids w subnets lists))) ∙ imports,
      record {
        same_id = same.same_id;
        same_drg = same.same_drg;
        same_block = same.same_block;
        same_public = same.same_public;
        same_private = same.same_private;
        same_secure = same.same_secure;
        same_management = same.same_management;
      },
    )
