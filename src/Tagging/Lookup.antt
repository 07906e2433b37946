-- ===== src/Tagging/Lookup.antt =====
-- What stands under a key of the tags: the caller's value, or that of the helper, or the baseline's.
use cloudspells.Common.{
  ◌≡◌, refl, ap, ◌∙◌, Option, none, some, [], ◌∷◌, arith, inl, inr, if◌then◌else◌, Bool-cases,
}
use cloudspells.Common.Text.{Text, codes, text_eq, text_eq_iff}
use cloudspells.Tagging.{
  Tags, get, insert, update, updated, ResourceTagger, baseline, create_freeform_tags, network_extra,
  create_network_resource_tags, create_gateway_tags,
}

abbrev pub first_some : Option Text → Option Text → Option Text
first_some none later = later
first_some (some value) later = some value

get-insert :
    (k : Text) (v : Text) (tags : Tags) (j : Text)
    → get (insert k v tags) j ≡ (if text_eq k j then some v else get tags j)
unfolding get insert
get-insert k v [] j = refl
get-insert k v ((i, w) ∷ tags) j =
    ground (arith, text_eq_iff k j, text_eq_iff i k, text_eq_iff i j, get-insert k v tags j)

get-update :
    (tags extra : Tags) (j : Text)
    → get (update tags extra) j ≡ first_some (get extra j) (get tags j)
unfolding get update
get-update tags [] j = refl
get-update tags ((k, v) ∷ extra) j = elim (Bool-cases (text_eq k j)) [
  | inl e ↦ rw (get-insert k v (update tags extra) j) (rw e)
  | inr e ↦ rw (get-insert k v (update tags extra) j) (rw e (get-update tags extra j))
]

-- What the caller gives, if anything.
abbrev pub given : Option Tags → Text → Option Text
given none j = none
given (some tags) j = get tags j

get-updated :
    (tags : Tags) (extra : Option Tags) (j : Text)
    → get (updated tags extra) j ≡ first_some (given extra j) (get tags j)
get-updated tags none j = refl
get-updated tags (some extra) j = get-update tags extra j

first_some_assoc :
    (a b c : Option Text) → first_some (first_some a b) c ≡ first_some a (first_some b c)
first_some_assoc none b c = refl
first_some_assoc (some v) b c = refl

layered :
    (extra tags : Tags) (additional : Option Tags) (j : Text)
    → get (update tags (updated extra additional)) j
      ≡ first_some (given additional j) (first_some (get extra j) (get tags j))
layered extra tags additional j =
    get-update tags (updated extra additional) j
    ∙ ap (λ o. first_some o (get tags j)) (get-updated extra additional j)
    ∙ first_some_assoc (given additional j) (get extra j) (get tags j)

-- In the tags of a resource, of a network resource and of a gateway, a key has the value that the
-- caller gives, or else the one that the helper adds, or else the one of the baseline, and otherwise
-- no value.
pub tags_by_key :
    (t : ResourceTagger) (name type : Text) (additional : Option Tags) (j : Text)
    → (get (create_freeform_tags t name type additional) j
        ≡ first_some (given additional j) (get (baseline t name type) j))
      × ((network : Text) (group : Option Text)
          → get (create_network_resource_tags t name type network group additional) j
            ≡ first_some
                (given additional j)
                (first_some (get (network_extra network group) j) (get (baseline t name type) j)))
      × ((gateway : Text)
          → get (create_gateway_tags t name gateway additional) j
            ≡ first_some (given additional j) (
                first_some
                  (get ((codes "gateway-type", gateway) ∷ []) j)
                  (get (baseline t name (codes "gateway")) j)))
unfolding create_freeform_tags create_network_resource_tags create_gateway_tags
tags_by_key t name type additional j = (
  get-updated (baseline t name type) additional j,
  λ network group. layered (network_extra network group) (baseline t name type) additional j,
  λ gateway.
      layered ((codes "gateway-type", gateway) ∷ []) (baseline t name (codes "gateway")) additional
        j,
)
