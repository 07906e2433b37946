-- ===== src/Tagging.antt =====
-- packages/cloudspells-core/src/cloudspells/core/tagging.py: `ResourceTagger`. A dictionary is the
-- list of its items; the order of the keys is not kept.
pub mod Lookup
use cloudspells.Common.{Bool, Option, none, some, List, [], ◌∷◌, if◌then◌else◌}
use cloudspells.Common.Text.{Text, codes, text_eq}

abbrev pub Tags : Type 0
Tags = List (Text × Text)

unfoldable pub get : Tags → Text → Option Text
get [] key = none
get ((k, value) ∷ tags) key = let rest = get tags key in if text_eq k key then some value else rest

-- `tags[key] = value`
unfoldable pub insert : Text → Text → Tags → Tags
insert key value [] = (key, value) ∷ []
insert key value ((k, old) ∷ tags) =
    let rest = (k, old) ∷ insert key value tags in if text_eq k key then (k, value) ∷ tags else rest

-- `tags.update(extra)`
unfoldable pub update : Tags → Tags → Tags
unfolding insert
update tags [] = tags
update tags ((k, value) ∷ extra) = insert k value (update tags extra)

pub record ResourceTagger : Type 0 where
  pub stack_name : Text
  pub resource_name : Text
  pub spell_type : Text

unfoldable pub baseline : ResourceTagger → Text → Text → Tags
baseline t resource_name resource_type =
    (codes "managed-by", codes "cloudspells")
    ∷ (codes "spell-type", t.spell_type)
    ∷ (codes "spell-name", t.resource_name)
    ∷ (codes "environment", t.stack_name)
    ∷ (codes "name", resource_name)
    ∷ (codes "resource-type", resource_type)
    ∷ []

-- `if extra: tags.update(extra)`, where the values are texts
abbrev pub updated : Tags → Option Tags → Tags
updated tags none = tags
updated tags (some extra) = update tags extra

unfoldable pub create_freeform_tags : ResourceTagger → Text → Text → Option Tags → Tags
unfolding baseline update
create_freeform_tags t resource_name resource_type additional_tags =
    updated (baseline t resource_name resource_type) additional_tags

-- `if subnet_group: extra["subnet-group"] = subnet_group`
abbrev pub with_group : Tags → Option Text → Tags
with_group extra none = extra
with_group extra (some []) = extra
with_group extra (some (c ∷ group)) = insert (codes "subnet-group") (c ∷ group) extra

unfoldable pub network_extra : Text → Option Text → Tags
unfolding insert
network_extra network_type subnet_group =
    with_group ((codes "network-type", network_type) ∷ []) subnet_group

unfoldable pub create_network_resource_tags :
    ResourceTagger → Text → Text → Text → Option Text → Option Tags → Tags
unfolding network_extra create_freeform_tags
create_network_resource_tags t resource_name resource_type network_type subnet_group
      additional_tags =
    create_freeform_tags t resource_name resource_type
      (some (updated (network_extra network_type subnet_group) additional_tags))

unfoldable pub create_gateway_tags : ResourceTagger → Text → Text → Option Tags → Tags
unfolding create_freeform_tags
create_gateway_tags t resource_name gateway_type additional_tags =
    create_freeform_tags t resource_name (codes "gateway")
      (some (updated ((codes "gateway-type", gateway_type) ∷ []) additional_tags))
