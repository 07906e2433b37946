-- ===== src/Nsg/Shield.antt =====
-- Who may be reached from outside: a rule whose source is a CIDR, the internet included, stands
-- only in a group whose role belongs to the public tier.
use cloudspells.Common.{
  ◌≡◌, ◌⊎◌, Bool, true, false, Option, List, [], ◌∷◌, ◌++◌, All, All-append, Bool-cases, inl, inr,
}
use cloudspells.Common.Text.{Text, contains}
use cloudspells.Roles.{RoleObject}
use cloudspells.Nsg.Defs.{Nsg, NsgRule, RuleArgs, new_rule, add_rule}
use cloudspells.Nsg.Roles.{Cloud}
use cloudspells.Nsg.Everywhere.{NoCidr, exposes, Fits}
use cloudspells.Nsg.Program.{Step, steps, Everywhere, steps-Everywhere}

abbrev pub Shield : Bool → List NsgRule → Type 0
Shield true rules = Unit
Shield false rules = All (λ r. NoCidr r.source) rules

-- A group of an internal role, or of none, has no rule with a CIDR for its source.
abbrev pub IsShielded : Nsg → Type 0
IsShielded g = Shield (exposes g.role) g.rules

Shield-append : (b : Bool) (xs ys : List NsgRule) → Shield b xs → Shield b ys → Shield b (xs ++ ys)
Shield-append true xs ys hx hy = tt
Shield-append false xs ys hx hy = All-append (λ r. NoCidr r.source) xs ys hx hy

fits-Shield :
    (role : Option RoleObject) (r : NsgRule)
    → (exposes role ≡ true) ⊎ NoCidr r.source
    → Shield (exposes role) (r ∷ [])
fits-Shield role r (inl e) = rw e tt
fits-Shield role r (inr inner) = elim (Bool-cases (exposes role)) [
  | inl e ↦ rw e tt
  | inr e ↦ rw e (inner, tt)
]

add_rule-Shield :
    (label : Text) (a : RuleArgs) (g : Nsg)
    → Fits g.role a
    → IsShielded g
    → IsShielded (add_rule label a g).1
unfolding add_rule new_rule
add_rule-Shield label a g new h = elim (Bool-cases (contains g.rule_labels label)) [
  | inl old ↦ rw old h
  | inr fresh ↦ rw fresh (
      Shield-append (exposes g.role) g.rules (new_rule g label a ∷ []) h (fits-Shield g.role _ new))
]

Shield-nil : (b : Bool) → Shield b []
Shield-nil true = tt
Shield-nil false = tt

-- No group has a rule from outside that its role does not admit.
abbrev pub AllShielded : Cloud → Type 0
AllShielded = Everywhere IsShielded

-- Whatever groups a program makes and connects, in whatever order and going on after exceptions,
-- a group whose role is not of the public tier, or that has no role, has no rule whose source is
-- a CIDR, when that holds at the start.
pub steps-AllShielded : (ss : List Step) (c : Cloud) → AllShielded c → AllShielded (steps ss c)
steps-AllShielded = steps-Everywhere IsShielded add_rule-Shield (λ a. Shield-nil (exposes a.role))
