-- ===== src/Nsg/Grows.antt =====
-- Every operation on groups only adds: rules and labels stay, and who a group is does not change.
use cloudspells.Common.{
  ℕ, ◌≡◌, refl, sym, ap, ◌∙◌, Bool, true, false, List, [], ◌∷◌, ◌++◌, append_assoc, append-nil,
  Bool-cases, inl, inr, if◌then◌else◌, ◌==◌, ==_iff,
}
use cloudspells.Common.Text.{Text, contains}
use cloudspells.Exec.{Exec, Action, when, for_each, ◌>>=◌, done, Result-cases}
use mathlib.Core.Path.{subst}
use cloudspells.Vcn.Defs.{Vcn}
use cloudspells.Nsg.Defs.{Nsg, NsgRule, RuleArgs, new_rule, add_rule}
use cloudspells.Nsg.Roles.{Cloud, on_nsg, on_vcn}

pub record GroupGrows (g g' : Nsg) : Type 0 where
  pub same_name : g'.name ≡ g.name
  pub same_network : g'.network ≡ g.network
  pub same_role : g'.role ≡ g.role
  pub more_rules : List NsgRule
  pub rules_grow : g'.rules ≡ g.rules ++ more_rules
  pub more_labels : List Text
  pub labels_grow : g'.rule_labels ≡ more_labels ++ g.rule_labels

GroupGrows-refl : (g : Nsg) → GroupGrows g g
GroupGrows-refl g = record {
  same_name = refl;
  same_network = refl;
  same_role = refl;
  more_rules = [];
  rules_grow = sym (append-nil g.rules);
  more_labels = [];
  labels_grow = refl;
}

GroupGrows-trans : {f g h : Nsg} → GroupGrows f g → GroupGrows g h → GroupGrows f h
GroupGrows-trans {f} {g} {h} a b = record {
  same_name = b.same_name ∙ a.same_name;
  same_network = b.same_network ∙ a.same_network;
  same_role = b.same_role ∙ a.same_role;
  more_rules = a.more_rules ++ b.more_rules;
  rules_grow =
      b.rules_grow
      ∙ ap (λ rs. rs ++ b.more_rules) a.rules_grow
      ∙ append_assoc f.rules a.more_rules b.more_rules;
  more_labels = b.more_labels ++ a.more_labels;
  labels_grow =
      b.labels_grow
      ∙ ap (λ ls. b.more_labels ++ ls) a.labels_grow
      ∙ sym (append_assoc b.more_labels a.more_labels f.rule_labels);
}

add_rule-GroupGrows : (label : Text) (a : RuleArgs) (g : Nsg) → GroupGrows g (add_rule label a g).1
unfolding add_rule
add_rule-GroupGrows label a g = elim (Bool-cases (contains g.rule_labels label)) [
  | inl old ↦ rw old (GroupGrows-refl g)
  | inr new ↦ rw new (record {
    same_name = refl;
    same_network = refl;
    same_role = refl;
    more_rules = new_rule g label a ∷ [];
    rules_grow = refl;
    more_labels = label ∷ [];
    labels_grow = refl;
  })
]

abbrev pub Grows : Cloud → Cloud → Type 0
Grows c c' = (j : ℕ) → GroupGrows (c.nsgs j) (c'.nsgs j)

-- The action keeps to that, whether it returns or raises.
abbrev pub Growing : {A : Type 0} → Exec Cloud A → Type 0
Growing m = (c : Cloud) → Grows c (m c).1

module _ {A : Type 0} where
  pub Growing-bind :
      {B : Type 0} (m : Exec Cloud A) (f : A → Exec Cloud B)
      → Growing m
      → ((a : A) → Growing (f a))
      → Growing (m >>= f)
  Growing-bind m f km kf c j = elim (Result-cases (m c).0) [
    | inl (a, e) ↦ rw e (GroupGrows-trans (km c j) (kf a (m c).1 j))
    | inr (x, e) ↦ rw e (km c j)
  ]

pub Growing-done : Growing done
Growing-done c j = GroupGrows-refl (c.nsgs j)

pub Growing-when : (b : Bool) (m : Action Cloud) → Growing m → Growing (when b m)
Growing-when true m k = k
Growing-when false m k = Growing-done

pub Growing-if :
    (b : Bool) (m n : Action Cloud) → Growing m → Growing n → Growing (if b then m else n)
Growing-if true m n km kn = km
Growing-if false m n km kn = kn

Growing-for_each :
    {A : Type 0} (xs : List A) (body : A → Action Cloud)
    → ((x : A) → Growing (body x))
    → Growing (for_each xs body)
unfolding for_each
Growing-for_each [] body k = Growing-done
Growing-for_each (x ∷ xs) body k =
    Growing-bind (body x) (λ _. for_each xs body) (k x) (λ _. Growing-for_each xs body k)

pub Growing-on_nsg : (i : ℕ) (label : Text) (a : RuleArgs) → Growing (on_nsg i (add_rule label a))
unfolding on_nsg
Growing-on_nsg i label a c j = elim (Bool-cases (i == j)) [
  | inl same ↦
      let e : i ≡ j = (==_iff i j).0 same in
      rw same (
        subst (λ (k : ℕ). GroupGrows (c.nsgs k) (add_rule label a (c.nsgs i)).1) e
          (add_rule-GroupGrows label a (c.nsgs i)))
  | inr other ↦ rw other (GroupGrows-refl (c.nsgs j))
]

pub Growing-on_vcn : (i : ℕ) (m : Action Vcn) → Growing (on_vcn i m)
unfolding on_vcn
Growing-on_vcn i m c j = GroupGrows-refl (c.nsgs j)
