-- ===== src/Iam.antt =====
-- iam.py: principals with their groups and policies. `current` is the name of the current stack, and
-- the descriptions of the resources are not kept.
use cloudspells.Common.{
  Bool, true, false, Option, none, some, List, [], ◌∷◌, ◌++◌, map, if◌then◌else◌,
}
use cloudspells.Common.Text.{Text, codes}
use cloudspells.Exec.{Result, ok, err, value_error}
use cloudspells.Naming.{create_resource_name}
use cloudspells.Tagging.{Tags, create_freeform_tags}
use cloudspells.Base.{BaseResource, new_base_resource}

pub record PrincipalArgs : Type 0 where
  pub name : Text
  pub compartment_id : Text
  pub tenancy_id : Text
  pub stack_name : Option Text

-- A dynamic group, or a group of users, which has no matching rule.
pub record Group : Type 0 where
  pub name : Text
  pub compartment_id : Text
  pub matching_rule : Option Text
  pub freeform_tags : Tags

pub record Policy : Type 0 where
  pub name : Text
  pub compartment_id : Text
  pub statements : List Text
  pub freeform_tags : Tags

pub record Principal : Type 0 where
  pub base : BaseResource
  pub group : Group
  pub policy : Policy

-- `f"Allow {subject} {name} to {grant} in compartment id {cid}"`
unfoldable pub statement : Text → Text → Text → Text → Text
statement subject name cid grant =
    codes "Allow "
    ++ (subject
        ++ (codes " "
            ++ (name ++ (codes " to " ++ (grant ++ (codes " in compartment id " ++ cid))))))

unfoldable pub new_group : BaseResource → Text → Text → Text → Text → Option Text → Group
new_group b suffix type tenancy_id compartment_id matching_rule =
    let name = create_resource_name b.namer suffix in
    record {
      name = name;
      compartment_id = tenancy_id;
      matching_rule = matching_rule;
      freeform_tags = create_freeform_tags b.tagger name type none;
    }

unfoldable pub new_policy : BaseResource → Text → List Text → Policy
new_policy b compartment_id statements =
    let name = create_resource_name b.namer (codes "policy") in
    record {
      name = name;
      compartment_id = compartment_id;
      statements = statements;
      freeform_tags = create_freeform_tags b.tagger name (codes "policy") none;
    }

-- `"instance.compartment.id = '{0}'"`
abbrev instances_of : Text → Text
instances_of compartment_id = codes "instance.compartment.id = '" ++ (compartment_id ++ codes "'")

abbrev base_of : Text → Text → PrincipalArgs → BaseResource
base_of current type a =
    new_base_resource current type a.name (some a.compartment_id) a.stack_name none

-- A dynamic group of the instances in the compartment, and what it may do there.
unfoldable pub instance_principal : Text → Text → PrincipalArgs → List Text → Principal
unfolding new_group new_policy statement
instance_principal current type a grants =
    let b = base_of current type a in
    let group =
      new_group b (codes "dg") (codes "dynamic-group") a.tenancy_id a.compartment_id
        (some (instances_of a.compartment_id)) in
    record {
      base = b;
      group = group;
      policy =
          new_policy b a.compartment_id
            (map (statement (codes "dynamic-group") group.name a.compartment_id) grants);
    }

-- `grants or ["read object-family", "read secret-family"]`
abbrev pub grants_of : Option (List Text) → List Text
grants_of none = codes "read object-family" ∷ codes "read secret-family" ∷ []
grants_of (some []) = codes "read object-family" ∷ codes "read secret-family" ∷ []
grants_of (some (g ∷ grants)) = g ∷ grants

abbrev pub is_empty_list : Option (List Text) → Bool
is_empty_list none = false
is_empty_list (some []) = true
is_empty_list (some (g ∷ grants)) = false

unfoldable pub compute_instance_principal :
    Text → PrincipalArgs → Option (List Text) → Result Principal
unfolding instance_principal
compute_instance_principal current a grants =
    if is_empty_list grants
    then err value_error
    else ok (
        instance_principal current (codes "custom:iam:ComputeInstancePrincipal") a
          (grants_of grants))

unfoldable pub oke_grants : List Text
oke_grants =
    codes "manage instance-family"
    ∷ codes "use virtual-network-family"
    ∷ codes "manage load-balancers"
    ∷ codes "use volume-family"
    ∷ codes "read repos"
    ∷ []

unfoldable pub oke_node_principal : Text → PrincipalArgs → Result Principal
unfolding instance_principal oke_grants
oke_node_principal current a =
    ok (instance_principal current (codes "custom:iam:OkeNodePrincipal") a oke_grants)

unfoldable pub compartment_admin_group : Text → PrincipalArgs → Result Principal
unfolding new_group new_policy statement
compartment_admin_group current a =
    let b = base_of current (codes "custom:iam:CompartmentAdminGroup") a in
    let group = new_group b (codes "group") (codes "group") a.tenancy_id a.compartment_id none in
    ok (record {
      base = b;
      group = group;
      policy = new_policy b a.compartment_id (
          statement (codes "group") group.name a.compartment_id (codes "manage all-resources")
          ∷ []);
    })
