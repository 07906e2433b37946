-- ===== src/Nsg/Repeat.antt =====
-- Serving one target on a second port.
use cloudspells.Common.{
  ℕ, ◌≡◌, refl, ap, true, List, [], ◌∷◌, ◌++◌, arith, ◌⊎◌, inl, inr, ◌==◌, ==_iff,
}
use cloudspells.Common.Text.{Text, contains, codes, text_eq_refl}
use cloudspells.Common.Decimal.{str}
use cloudspells.Exec.{Result, ok, err, value_error, >>-ok, >>-err}
use cloudspells.Nsg.Defs.{Nsg, RuleArgs, add_rule, to_nsg, from_nsg}
use cloudspells.Nsg.Grows.{GroupGrows, Grows, Growing-on_nsg}
use cloudspells.Nsg.Roles.{
  Cloud, on_nsg, connect, serves, serves_tiers, accepts_ssh, out_label, in_label, ssh,
}
use cloudspells.Nsg.Serves.{
  call_out, call_in, connect-eq, Growing-connect, after_port, serves-eq, Growing-serves,
  Growing-serves_tiers,
}

contains-append_right :
    (ls ms : List Text) (t : Text) → contains ms t ≡ true → contains (ls ++ ms) t ≡ true
unfolding contains
contains-append_right [] ms t h = h
contains-append_right (l ∷ ls) ms t h = ground (arith, contains-append_right ls ms t h)

label_stays :
    {g g' : Nsg} (t : Text)
    → GroupGrows g g'
    → contains g.rule_labels t ≡ true
    → contains g'.rule_labels t ≡ true
label_stays {g} t x h = rw x.labels_grow (contains-append_right x.more_labels g.rule_labels t h)

-- Adding a rule raises `ValueError` or nothing, and a label that is there makes it raise.
add_rule-outcome :
    (label : Text) (a : RuleArgs) (g : Nsg)
    → ((add_rule label a g).0 ≡ ok tt) ⊎ ((add_rule label a g).0 ≡ err value_error)
unfolding add_rule
add_rule-outcome label a g = ground arith

add_rule-ok-label :
    (label : Text) (a : RuleArgs) (g : Nsg)
    → (add_rule label a g).0 ≡ ok tt
    → contains (add_rule label a g).1.rule_labels label ≡ true
unfolding add_rule contains
add_rule-ok-label label a g h = ground (arith, text_eq_refl label)

add_rule-taken :
    (label : Text) (a : RuleArgs) (g : Nsg)
    → contains g.rule_labels label ≡ true
    → (add_rule label a g).0 ≡ err value_error
unfolding add_rule
add_rule-taken label a g h = rw h

on_nsg-outcome :
    (i : ℕ) (label : Text) (a : RuleArgs) (c : Cloud)
    → ((on_nsg i (add_rule label a) c).0 ≡ ok tt)
      ⊎ ((on_nsg i (add_rule label a) c).0 ≡ err value_error)
unfolding on_nsg
on_nsg-outcome i label a c = add_rule-outcome label a (c.nsgs i)

connect-outcome :
    (self target port : ℕ) (what : Text) (c : Cloud)
    → ((connect self target port what c).0 ≡ ok tt)
      ⊎ ((connect self target port what c).0 ≡ err value_error)
connect-outcome self target port what c =
    let m = call_out c self target port what in
    let n = call_in c self target port what in
    rw connect-eq
      (elim (on_nsg-outcome self (out_label (c.nsgs target).name what) (to_nsg target port []) c) [
        | inl e ↦ rw e (
            on_nsg-outcome target (in_label (c.nsgs self).name what) (from_nsg self port [])
              (m c).1)
        | inr e ↦ inr (ap (λ (r : Result (Unit {0}) × Cloud). r.0) (>>-err m n c value_error e))
      ])

-- A label that is taken makes the first call raise.
connect-taken :
    (self target port : ℕ) (what : Text) (c : Cloud)
    → contains (c.nsgs self).rule_labels (out_label (c.nsgs target).name what) ≡ true
    → (connect self target port what c).0 ≡ err value_error
unfolding on_nsg
connect-taken self target port what c h =
    rw (connect-eq, add_rule-taken _ (to_nsg target port []) (c.nsgs self) h)

on_nsg-ok-label :
    (i : ℕ) (label : Text) (a : RuleArgs) (c : Cloud)
    → (on_nsg i (add_rule label a) c).0 ≡ ok tt
    → contains ((on_nsg i (add_rule label a) c).1.nsgs i).rule_labels label ≡ true
unfolding on_nsg
on_nsg-ok-label i label a c h =
    let e : (i == i) ≡ true = (==_iff i i).1 refl in rw e (add_rule-ok-label label a (c.nsgs i) h)

-- A connection that is made has taken its label.
connect-ok-label :
    (self target port : ℕ) (what : Text) (c : Cloud)
    → (connect self target port what c).0 ≡ ok tt
    → contains
        ((connect self target port what c).1.nsgs self).rule_labels
        (out_label (c.nsgs target).name what)
      ≡ true
connect-ok-label self target port what c h =
    let e = connect-eq self target port what c in
    let (first, _, e') =
      >>-ok (call_out c self target port what) (call_in c self target port what) c (rw e at h) in
    rw (e, e') (label_stays _ (Growing-on_nsg target _ _ _ self) (on_nsg-ok-label self _ _ c first))

abbrev HasSshLabel : Cloud → ℕ → ℕ → Type 0
HasSshLabel c self target =
    contains (c.nsgs self).rule_labels (out_label (c.nsgs target).name (codes "ssh")) ≡ true

HasSshLabel-Grows :
    (c c' : Cloud) (self target : ℕ)
    → Grows c c'
    → HasSshLabel c self target
    → HasSshLabel c' self target
HasSshLabel-Grows c c' self target g h = rw (g target).same_name (label_stays _ (g self) h)

-- After a call that returned and opened SSH, the label of the SSH rule is taken.
serves-HasSshLabel :
    (self target port : ℕ) (c : Cloud)
    → accepts_ssh (c.nsgs target).role ≡ true
    → (serves self target port true c).0 ≡ ok tt
    → HasSshLabel (serves self target port true c).1 self target
serves-HasSshLabel self target port c ssh_too h =
    let e = serves-eq self target port true c in
    let tiers =
      serves_tiers (c.nsgs self).network (c.nsgs self).role (c.nsgs target).role port true in
    let first = connect self target port (str port) in
    let second = connect self target ssh (codes "ssh") in
    let c1 = (first c).1 in
    let c2 = (second c1).1 in
    let (_, later, e') =
      >>-ok first (after_port c self target port true) c (rw (e, ssh_too) at h) in
    let (made, _, e'') = >>-ok second tiers c1 later in
    let named = (Growing-connect self target ssh (codes "ssh") c1 target).same_name in
    let taken : HasSshLabel c2 self target =
      rw named (connect-ok-label self target ssh (codes "ssh") c1 made) in
    rw (e, ssh_too, e', e'')
      (HasSshLabel-Grows c2 (tiers c2).1 self target (Growing-serves_tiers _ _ _ port true c2)
        taken)

-- With the label taken, a call that wants SSH raises, whatever the port.
serves-taken :
    (self target port : ℕ) (c : Cloud)
    → accepts_ssh (c.nsgs target).role ≡ true
    → HasSshLabel c self target
    → (serves self target port true c).0 ≡ err value_error
serves-taken self target port c ssh_too h =
    let first = connect self target port (str port) in
    let second = connect self target ssh (codes "ssh") in
    let c1 = (first c).1 in
    let tiers =
      serves_tiers (c.nsgs self).network (c.nsgs self).role (c.nsgs target).role port true in
    let taken =
      HasSshLabel-Grows c c1 self target (Growing-connect self target port (str port) c) h in
    rw (serves-eq, ssh_too)
      (elim (connect-outcome self target port (str port) c) [
        | inl e ↦ rw (e, connect-taken self target ssh (codes "ssh") c1 taken)
        | inr e ↦ rw e
      ])

-- Serving one target on a second port with the default arguments always raises `ValueError`, when
-- the first call returned and the target accepts SSH: both calls want the label of the SSH rule.
pub serves_again_raises :
    (self target port port' : ℕ) (c : Cloud)
    → accepts_ssh (c.nsgs target).role ≡ true
    → (serves self target port true c).0 ≡ ok tt
    → (serves self target port' true (serves self target port true c).1).0 ≡ err value_error
serves_again_raises self target port port' c ssh_too h =
    let g = Growing-serves self target port true c in
    serves-taken self target port' _ (rw (g target).same_role ssh_too)
      (serves-HasSshLabel self target port c ssh_too h)
