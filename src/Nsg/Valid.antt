-- ===== src/Nsg/Valid.antt =====
-- What holds of every group: labels and resource names are unique, and rules are stateful.
use cloudspells.Nsg.Roles.{Cloud}
use cloudspells.Nsg.Program.{Step, steps, Everywhere, steps-Everywhere}
use cloudspells.Common.{
  ℕ, zero, suc, ◌+◌, ◌≡◌, refl, sym, ap, ◌∙◌, false, some, List, [], ◌∷◌, ◌++◌, arith, length,
  length-append, get_elem?, Bool-cases, inl, inr,
}
use cloudspells.Common.Text.{Text, contains, codes}
use cloudspells.Naming.Laws.{ordinal_name_injective}
use cloudspells.Nsg.Defs.{Nsg, NsgRule, RuleArgs, rule_name, new_rule, add_rule, rule_namer}

-- No label stands twice.
abbrev Distinct : List Text → Type 0
Distinct [] = Unit
Distinct (t ∷ ts) = (contains ts t ≡ false) × Distinct ts

-- The rules are named by their places, from `k` on, and track connections.
abbrev Numbered : Nsg → ℕ → List NsgRule → Type 0
Numbered g k [] = Unit
Numbered g k (r ∷ rs) =
    (r.resource_name ≡ rule_name g k) × (r.stateless ≡ false) × Numbered g (k + 1) rs

pub record IsValid (g : Nsg) : Type 0 where
  pub labelled : length g.rule_labels ≡ g.next_rule_index
  pub distinct : Distinct g.rule_labels
  pub counted : length g.rules ≡ g.next_rule_index
  pub numbered : Numbered g 0 g.rules

Numbered-append :
    (g : Nsg) (k n : ℕ) (rs : List NsgRule) (r : NsgRule)
    → n ≡ k + length rs
    → Numbered g k rs
    → r.resource_name ≡ rule_name g n
    → r.stateless ≡ false
    → Numbered g k (rs ++ (r ∷ []))
Numbered-append g k n [] r e h named stateful =
    let e' : n ≡ k = omega arith in (named ∙ ap (rule_name g) e', stateful, tt)
Numbered-append g k n (s ∷ rs) r e (hn, hs, h) named stateful =
    (hn, hs, Numbered-append g (k + 1) n rs r (omega arith) h named stateful)

-- `add_rule` keeps a group valid, whether it adds the rule or refuses the label.
pub add_rule-IsValid :
    (label : Text) (a : RuleArgs) (g : Nsg) → IsValid g → IsValid (add_rule label a g).1
unfolding add_rule new_rule rule_name
add_rule-IsValid label a g h = elim (Bool-cases (contains g.rule_labels label)) [
  | inl old ↦ rw old h
  | inr new ↦ rw new (record {
    labelled = omega (arith, h.labelled);
    distinct = (new, h.distinct);
    counted = omega (arith, h.counted, length-append {0} g.rules (new_rule g label a ∷ []));
    numbered =
        Numbered-append g 0 g.next_rule_index g.rules (new_rule g label a)
          (omega (arith, h.counted)) h.numbered refl refl;
  })
]

Numbered-get_elem? :
    (g : Nsg) (k i : ℕ) (rs : List NsgRule) {r : NsgRule}
    → Numbered g k rs
    → get_elem? rs i ≡ some r
    → r.resource_name ≡ rule_name g (k + i)
Numbered-get_elem? g k i [] h e = cc
Numbered-get_elem? g k zero (s ∷ rs) {r} (named, _, _) e =
    let same : k ≡ k + 0 = omega arith in
    let found : s ≡ r = cc in
    sym (ap (λ (t : NsgRule). t.resource_name) found) ∙ named ∙ ap (rule_name g) same
Numbered-get_elem? g k (suc i) (s ∷ rs) (_, _, h) e =
    let next : k + 1 + i ≡ k + suc i = omega arith in
    Numbered-get_elem? g (k + 1) i rs h e ∙ ap (rule_name g) next

-- In a valid group, two rules with one resource name are one rule.
pub rules_named_apart :
    (g : Nsg) (i j : ℕ) {r s : NsgRule}
    → IsValid g
    → get_elem? g.rules i ≡ some r
    → get_elem? g.rules j ≡ some s
    → r.resource_name ≡ s.resource_name
    → i ≡ j
unfolding rule_name
rules_named_apart g i j h at_i at_j e =
    let named_i = Numbered-get_elem? g 0 i g.rules h.numbered at_i in
    let named_j = Numbered-get_elem? g 0 j g.rules h.numbered at_j in
    omega (
      arith,
      ordinal_name_injective (rule_namer g) (codes "nsg-rule") (0 + i) (0 + j)
          (sym named_i ∙ e ∙ named_j),
    )

abbrev pub AllValid : Cloud → Type 0
AllValid = Everywhere IsValid

-- Whatever groups a program makes and connects, in whatever order and going on after exceptions,
-- every group is valid when that holds at the start: no label stands twice, the counter agrees
-- with the labels and the rules, and each rule is stateful and named by its place.
pub steps-AllValid : (ss : List Step) (c : Cloud) → AllValid c → AllValid (steps ss c)
steps-AllValid =
    steps-Everywhere IsValid (λ label a g _ h. add_rule-IsValid label a g h)
      (λ a. record { labelled = refl; distinct = tt; counted = refl; numbered = tt })
