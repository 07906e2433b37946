-- ===== src/Nsg/Program.antt =====
-- Programs that make groups and connect them, and the properties that all their groups have.
use cloudspells.Common.{
  ℕ, ◌≡◌, refl, Bool, true, Option, none, some, List, [], ◌∷◌, Bool-cases, inl, inr, ◌==◌, ==_iff,
}
use cloudspells.Exec.Keeps.{Keeps, Keeps-bind, Keeps-when}
use cloudspells.Roles.{RoleObject, role_of}
use cloudspells.Common.Text.{Text}
use cloudspells.Nsg.Defs.{Network, Nsg, RuleArgs, add_rule}
use cloudspells.Nsg.Roles.{
  Cloud, NsgArgs, update, serves, ambient, is_live, lacks_ports, new_nsg, fresh_nsg,
  apply_role_ambient_rules, ambient_nsg_rules,
}
use cloudspells.Nsg.Everywhere.{Fits, Inv, Inv-ambient_nsg_rules, Inv-ambient_sl_rules, Inv-serves}

-- What a program does to groups: it makes them and connects them.
pub data Step : Type 0 where
  make : ℕ → NsgArgs → Step
  join : ℕ → ℕ → ℕ → Bool → Step

-- One step; the program may go on after an exception.
abbrev pub step : Step → Cloud → Cloud
step (make self a) c = (new_nsg self a c).1
step (join self target port with_ssh) c = (serves self target port with_ssh c).1

abbrev pub steps : List Step → Cloud → Cloud
steps [] c = c
steps (s ∷ ss) c = steps ss (step s c)

abbrev pub Everywhere : (Nsg → Type 0) → Cloud → Type 0
Everywhere P c = (j : ℕ) → P (c.nsgs j)

-- A property of new groups that `add_rule` keeps.
module _ (P : Nsg → Type 0)
    (keep : (label : Text) (a : RuleArgs) (g : Nsg)
      → Fits g.role a
      → P g
      → P (add_rule label a g).1)
    (fresh : (a : NsgArgs) → P (fresh_nsg a)) where
  fresh-Inv :
      (self : ℕ) (a : NsgArgs) (c : Cloud)
      → Everywhere P c
      → Inv P self a.role (record c { nsgs = update c.nsgs self (fresh_nsg a) })
  fresh-Inv self a c h =
      let e : (self == self) ≡ true = (==_iff self self).1 refl in
      record {
        own_role = rw e;
        everywhere = λ j. elim (Bool-cases (self == j)) [
          | inl same ↦ rw same (fresh a)
          | inr other ↦ rw other (h j)
        ];
      }

  ambient-Inv :
      (self : ℕ) (network : Network) (ports : List ℕ) (role : Option RoleObject)
      → Keeps (Inv P self role) (ambient self network ports role)
  unfolding apply_role_ambient_rules
  ambient-Inv self network ports none = λ c h. h
  ambient-Inv self network ports (some role) =
      let K = Inv P self (some role) in
      Keeps-bind K (ambient_nsg_rules self (role_of role) ports) _
        (Inv-ambient_nsg_rules P keep self (some role) (role_of role) ports refl)
        λ _.
          Keeps-when K (is_live network) _
            (λ _. Inv-ambient_sl_rules P keep self (some role) network (role_of role) ports)

  new_nsg-Everywhere :
      (self : ℕ) (a : NsgArgs) (c : Cloud) → Everywhere P c → Everywhere P (new_nsg self a c).1
  unfolding new_nsg
  new_nsg-Everywhere self a c h =
      let c' = record c { nsgs = update c.nsgs self (fresh_nsg a) } in
      elim (Bool-cases (lacks_ports a)) [
        | inl refused ↦ rw refused h
        | inr allowed ↦
            rw allowed
              (ambient-Inv self a.network a.ports a.role c' (fresh-Inv self a c h)).everywhere
      ]

  serves-Everywhere :
      (self target port : ℕ) (with_ssh : Bool) (c : Cloud)
      → Everywhere P c
      → Everywhere P (serves self target port with_ssh c).1
  serves-Everywhere self target port with_ssh c h =
      (Inv-serves P keep self (c.nsgs self).role self target port with_ssh c
        (record { own_role = refl; everywhere = h })).everywhere

  pub steps-Everywhere : (ss : List Step) (c : Cloud) → Everywhere P c → Everywhere P (steps ss c)
  steps-Everywhere [] c h = h
  steps-Everywhere (make self a ∷ ss) c h =
      steps-Everywhere ss (new_nsg self a c).1 (new_nsg-Everywhere self a c h)
  steps-Everywhere (join self target port with_ssh ∷ ss) c h =
      steps-Everywhere ss (serves self target port with_ssh c).1
        (serves-Everywhere self target port with_ssh c h)
