-- ===== src/Rules/Agree.antt =====
-- The rule builders of nsg.py mirror the translation in network.py.
use cloudspells.Common.{ℕ, ◌≡◌, ◌≢◌, refl, arith, true, false}
use cloudspells.Common.Text.{Text, codes, text_eq, text_eq_iff}
use cloudspells.Rules.{
  tcp_ingress, tcp_egress, all_egress, cloud_services, internet, protocol_number,
  translate_ingress_rule, translate_egress_rule, sl_ingress_tcp, sl_egress_tcp,
  sl_egress_all_services, sl_egress_all_internet,
}

tcp_is_tcp : text_eq (codes "tcp") (codes "tcp") ≡ true
unfolding text_eq codes
tcp_is_tcp = refl

text_eq-false : (s t : Text) → s ≢ t → text_eq s t ≡ false
text_eq-false s t h = ground (arith, text_eq_iff s t)

-- A TCP rule stated in the abstraction and one that a role infers are the same OCI rule, in both
-- directions, unless the address is one of the two keywords that the translation replaces.
translate-eq-sl :
    (port : ℕ) (address description svc_cidr : Text)
    → address ≢ codes "internet"
    → address ≢ cloud_services
    → (translate_ingress_rule (tcp_ingress port address description)
        ≡ sl_ingress_tcp port address description)
      × (translate_egress_rule (tcp_egress port address description) svc_cidr
          ≡ sl_egress_tcp port address description)
unfolding translate_ingress_rule translate_egress_rule tcp_ingress tcp_egress sl_ingress_tcp
    sl_egress_tcp
translate-eq-sl port address description svc_cidr not_internet not_services = (
  rw (tcp_is_tcp, text_eq-false address _ not_internet),
  rw (tcp_is_tcp, text_eq-false address _ not_internet, text_eq-false address _ not_services),
)

-- The two keywords: "cloud-services" becomes the service gateway's CIDR, with its own type, and
-- "internet" every address, as in the rules that roles infer.
translate-keywords :
    (svc_cidr : Text)
    → (translate_egress_rule
          (all_egress cloud_services (codes "All traffic to Oracle Services"))
          svc_cidr
        ≡ sl_egress_all_services svc_cidr)
      × (translate_egress_rule
            (all_egress (codes "internet") (codes "All outbound traffic via NAT Gateway"))
            svc_cidr
          ≡ sl_egress_all_internet)
unfolding translate_egress_rule all_egress sl_egress_all_services sl_egress_all_internet text_eq
    codes cloud_services internet protocol_number
translate-keywords svc_cidr = (refl, refl)
