-- ===== src/Tests/Groups.antt =====
-- Two groups on one network: a web tier that serves an application tier.
use cloudspells.Common.{◌++◌}
use cloudspells.Nsg.Lists.{IsListed}
use cloudspells.Nsg.Tiers.{rule_out, rule_back, serves-IsListed}
use cloudspells.Common.{
  ℕ, ◌≡◌, refl, true, some, [], ◌∷◌, if◌then◌else◌, ◌==◌, All, Bool-cases, inl, inr,
}
use cloudspells.Common.Text.{Text, codes, text_eq, contains}
use cloudspells.Common.Decimal.{str, digits}
use cloudspells.Exec.{ok, err, value_error}
use cloudspells.Roles.{internet_edge, app_server, role_of, tier_name, same_tier}
use cloudspells.Vcn.Defs.{
  initial_vcn, add_unique_security_list_rules, add_security_list_rules, has_ambient_rule,
}
use cloudspells.Nsg.Defs.{
  Nsg, RuleArgs, live, add_rule, new_rule, from_cidr, allow_to_nsg, allow_from_nsg,
}
use cloudspells.Nsg.Roles.{
  Cloud, NsgArgs, fresh_nsg, out_label, in_label, egress_fingerprint, ingress_fingerprint, serves,
  serves_tiers, connect, connect_tiers, on_nsg, on_vcn, sl_for_tier, cidr_for_tier, accepts_ssh,
}
use cloudspells.Nsg.Valid.{IsValid, add_rule-IsValid, rules_named_apart, AllValid, steps-AllValid}
use cloudspells.Nsg.Serves.{IsOpen, served_ports, needs_ssh, serves-IsOpen}
use cloudspells.Nsg.Repeat.{serves_again_raises}
use cloudspells.Nsg.Program.{make, join, steps}
use cloudspells.Nsg.Shield.{AllShielded, steps-AllShielded}
use cloudspells.Tests.Networks.{lab_vcn}

abbrev web_args : NsgArgs
web_args = record {
  stack_name = codes "prod";
  name = codes "web";
  network = live 0;
  role = some internet_edge;
  ports = 443 ∷ [];
}

abbrev app_args : NsgArgs
app_args = record {
  stack_name = codes "prod";
  name = codes "app";
  network = live 0;
  role = some app_server;
  ports = [];
}

abbrev cloud : Cloud
cloud = record {
  vcns = λ _. lab_vcn;
  nsgs = λ i. if i == 0 then fresh_nsg web_args else fresh_nsg app_args;
  svc_cidr = codes "all-fra-services";
}

abbrev web_group : Nsg
web_group = fresh_nsg web_args

web_group-IsValid : IsValid web_group
web_group-IsValid = record { labelled = refl; distinct = tt; counted = refl; numbered = tt }

abbrev https : RuleArgs
https = from_cidr 443 (codes "0.0.0.0/0") []

abbrev first : Nsg
first = (add_rule (codes "https") https web_group).1

first-IsValid : IsValid first
first-IsValid = add_rule-IsValid (codes "https") https web_group web_group-IsValid

rules_named_apart_example : (let i : ℕ = 0 in i ≡ i)
unfolding add_rule contains
rules_named_apart_example =
    rules_named_apart first 0 0 {r = new_rule web_group (codes "https") https}
      {s = new_rule web_group (codes "https") https} first-IsValid refl refl refl

-- the call returns
served : (serves 0 1 8080 true cloud).0 ≡ ok tt
unfolding same_tier out_label in_label egress_fingerprint ingress_fingerprint tier_name serves
    connect serves_tiers connect_tiers on_nsg on_vcn sl_for_tier cidr_for_tier accepts_ssh
    allow_to_nsg allow_from_nsg add_rule contains text_eq codes str digits
    add_unique_security_list_rules add_security_list_rules has_ambient_rule initial_vcn role_of
served = refl

serves-IsOpen_example :
    All (IsOpen (serves 0 1 8080 true cloud).1 0 1) (served_ports 8080 (needs_ssh cloud 1 true))
serves-IsOpen_example = serves-IsOpen 0 1 8080 true cloud served

target_accepts_ssh : accepts_ssh (cloud.nsgs 1).role ≡ true
unfolding accepts_ssh role_of
target_accepts_ssh = refl

serves_again_raises_example :
    (serves 0 1 9090 true (serves 0 1 8080 true cloud).1).0 ≡ err value_error
serves_again_raises_example = serves_again_raises 0 1 8080 9090 cloud target_accepts_ssh served

cloud-AllShielded : AllShielded cloud
unfolding role_of
cloud-AllShielded j = elim (Bool-cases (j == 0)) [ inl e ↦ rw e tt | inr e ↦ rw e tt ]

steps-AllShielded_example :
    AllShielded (steps (make 2 web_args ∷ make 3 app_args ∷ join 2 3 8080 true ∷ []) cloud)
steps-AllShielded_example =
    steps-AllShielded (make 2 web_args ∷ make 3 app_args ∷ join 2 3 8080 true ∷ []) cloud
      cloud-AllShielded

cloud-AllValid : AllValid cloud
cloud-AllValid j = elim (Bool-cases (j == 0)) [
  | inl e ↦ rw e (record { labelled = refl; distinct = tt; counted = refl; numbered = tt })
  | inr e ↦ rw e (record { labelled = refl; distinct = tt; counted = refl; numbered = tt })
]

steps-AllValid_example :
    AllValid (steps (make 2 web_args ∷ make 3 app_args ∷ join 2 3 8080 true ∷ []) cloud)
steps-AllValid_example =
    steps-AllValid (make 2 web_args ∷ make 3 app_args ∷ join 2 3 8080 true ∷ []) cloud
      cloud-AllValid

abbrev web_title : Text
web_title = codes "TCP " ++ str 8080

serves-IsListed_example :
    IsListed
      (role_of internet_edge).subnet_tier
      (role_of app_server).subnet_tier
      (rule_out lab_vcn (role_of app_server).subnet_tier 8080 web_title)
      (rule_back lab_vcn (role_of internet_edge).subnet_tier 8080 web_title)
      ((serves 0 1 8080 true cloud).1.vcns 0)
unfolding same_tier role_of has_ambient_rule contains initial_vcn
serves-IsListed_example =
    serves-IsListed 0 0 1 8080 true cloud internet_edge app_server refl refl refl refl refl refl
      refl served
