-- ===== src/Base.antt =====
-- packages/cloudspells-core/src/cloudspells/core/base.py: `BaseResource`, its name and its tagger. The
-- name of the current stack is a parameter, and class names are ASCII.
pub mod SpellType
pub mod Words
use cloudspells.Common.{
  ℕ, ◌+◌, Bool, true, false, ◌&&◌, ◌||◌, Option, none, some, List, [], ◌∷◌, ◌++◌, leb, ◌==◌,
  if◌then◌else◌,
}
use cloudspells.Common.Text.{Text, codes}
use cloudspells.Naming.{ResourceNamer}
use cloudspells.Tagging.{ResourceTagger}

abbrev pub is_upper : ℕ → Bool
is_upper c = leb b'A' c && leb c b'Z'

abbrev pub is_lower : ℕ → Bool
is_lower c = leb b'a' c && leb c b'z'

abbrev pub is_digit : ℕ → Bool
is_digit c = leb b'0' c && leb c b'9'

abbrev pub has_colon : Text → Bool
has_colon [] = false
has_colon (c ∷ s) = c == b':' || has_colon s

-- `text.rsplit(":", 1)[-1]`
unfoldable pub after_colon : Text → Text
after_colon [] = []
after_colon (c ∷ s) = let rest = after_colon s in if has_colon (c ∷ s) then rest else c ∷ s

-- A capital letter and a small one stand in front.
abbrev pub starts_word : Text → Bool
starts_word [] = false
starts_word (c ∷ []) = false
starts_word (c ∷ (d ∷ s)) = is_upper c && is_lower d

-- `re.sub(r"([A-Z]+)([A-Z][a-z])", r"\1-\2", text)`: the match ends at the last capital of a run, so
-- the hyphen comes between two capitals, where a small letter follows the second.
unfoldable pub split_acronyms : Text → Text
split_acronyms [] = []
split_acronyms (c ∷ s) =
    let rest = split_acronyms s in if is_upper c && starts_word s then c ∷ b'-' ∷ rest else c ∷ rest

abbrev pub starts_upper : Text → Bool
starts_upper [] = false
starts_upper (c ∷ s) = is_upper c

-- `re.sub(r"([a-z\d])([A-Z])", r"\1-\2", text)`
unfoldable pub split_words : Text → Text
split_words [] = []
split_words (c ∷ s) =
    let rest = split_words s in
    if (is_lower c || is_digit c) && starts_upper s then c ∷ b'-' ∷ rest else c ∷ rest

-- `c.lower()`
abbrev pub to_lower : ℕ → ℕ
to_lower c = if is_upper c then c + 32 else c

unfoldable pub lower : Text → Text
lower [] = []
lower (c ∷ s) = to_lower c ∷ lower s

-- `_spell_type_from_urn`
unfoldable pub spell_type_from_urn : Text → Text
unfolding after_colon split_acronyms split_words lower
spell_type_from_urn resource_type = lower (split_words (split_acronyms (after_colon resource_type)))

pub record BaseResource : Type 0 where
  pub project_ref : Option Text
  pub compartment_id : Option Text
  pub stack_name : Text
  pub name : Text
  pub display_name : Text
  pub namer : ResourceNamer
  pub tagger : ResourceTagger

abbrev or_else : {A : Type 0} → Option A → Option A → Option A
or_else none later = later
or_else (some a) later = some a

abbrev resolved : Option Text → Text → Text
resolved none current = current
resolved (some name) current = name

-- `BaseResource.__init__`, where `current` is what `pulumi.get_stack()` returns
unfoldable pub new_base_resource :
    Text → Text → Text → Option Text → Option Text → Option Text → BaseResource
unfolding spell_type_from_urn
new_base_resource current resource_type name compartment_id stack_name project_ref =
    let stack = resolved stack_name current in
    let ref = or_else compartment_id project_ref in
    record {
      project_ref = ref;
      compartment_id = ref;
      stack_name = stack;
      name = name;
      display_name = stack ++ (codes "-" ++ name);
      namer = record { stack_name = stack; resource_name = name };
      tagger = record {
        stack_name = stack;
        resource_name = name;
        spell_type = spell_type_from_urn resource_type;
      };
    }
