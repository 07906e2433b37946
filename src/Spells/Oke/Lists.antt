-- ===== src/Spells/Oke/Lists.antt =====
-- The rules that a cluster adds to the security lists of the public and the private tier.
use cloudspells.Common.{none, List, [], ◌∷◌, ◌++◌, map}
use cloudspells.Common.Text.{Text, codes}
use cloudspells.Rules.{
  SlIngress, SlEgress, SlRules, cidr_block, service_cidr_block, no_rules, internet,
}
use cloudspells.Spells.Site.{tcp_from, tcp_to}

all_from : Text → Text → SlIngress
all_from source description = record {
  protocol = codes "all";
  source = source;
  source_type = cidr_block;
  tcp_options = none;
  icmp_options = none;
  description = description;
}

all_to : Text → Text → SlEgress
all_to destination description = record {
  protocol = codes "all";
  destination = destination;
  destination_type = cidr_block;
  tcp_options = none;
  description = description;
}

tcp_to_services : Text → Text → SlEgress
tcp_to_services svc description = record {
  protocol = codes "6";
  destination = svc;
  destination_type = service_cidr_block;
  tcp_options = none;
  description = description;
}

-- The rule for each network that `kubectl` may come from.
kubectl_ingress : Text → SlIngress
kubectl_ingress allowed =
    tcp_from allowed 6443 6443 (codes "Allow kubectl access to Kubernetes API from " ++ allowed)

oke_public_ingress : Text → List SlIngress
oke_public_ingress private_cidr =
    tcp_from private_cidr 6443 6443 (
      codes
        "Workers and pods communicate with Kubernetes API server for cluster operations and service discovery")
    ∷ tcp_from private_cidr 12250 12250 (
        codes
          "Workers and pods communicate with Kubernetes control plane for internal cluster operations")
    ∷ tcp_from internet 443 443 (
        codes
          "Load Balancer receives HTTPS traffic from internet for public web applications and APIs")
    ∷ tcp_from internet 80 80 (
        codes
          "Load Balancer receives HTTP traffic from internet for public applications (consider HTTPS redirect)")
    ∷ []

oke_public_egress : Text → Text → List SlEgress
unfolding all_to tcp_to_services
oke_public_egress private_cidr svc =
    tcp_to_services svc
      (codes "Control plane communicates with OCI services for cluster management and telemetry")
    ∷ tcp_to private_cidr 10250 10250 (
        codes
          "Control plane manages worker nodes via kubelet for pod operations and health monitoring")
    ∷ tcp_to private_cidr 30000 32767 (
        codes
          "Load Balancer forwards traffic to worker nodes via NodePort for Kubernetes service routing")
    ∷ tcp_to private_cidr 10256 10256 (
        codes
          "Load Balancer checks worker node health via kube-proxy to ensure traffic routing availability")
    ∷ all_to private_cidr (
        codes
          "Control plane reaches pods on arbitrary ports for webhooks, admission controllers, and metrics")
    ∷ []

oke_private_ingress : Text → List SlIngress
unfolding all_from
oke_private_ingress public_cidr =
    tcp_from public_cidr 10250 10250 (
      codes
        "Control plane manages pods on worker nodes via kubelet for commands, logs, and health monitoring")
    ∷ tcp_from public_cidr 30000 32767 (
        codes
          "Load Balancer forwards traffic to worker nodes via NodePort to reach Kubernetes services")
    ∷ tcp_from public_cidr 10256 10256 (
        codes
          "Load Balancer verifies worker node health via kube-proxy endpoint before routing traffic")
    ∷ all_from public_cidr (
        codes
          "Control plane reaches pods on arbitrary ports for webhooks and admission controllers")
    ∷ []

oke_private_egress : Text → Text → List SlEgress
unfolding tcp_to_services
oke_private_egress public_cidr svc =
    tcp_to_services svc (
      codes
        "Workers and pods communicate with OCI services for container images, logging, and monitoring")
    ∷ tcp_to public_cidr 6443 6443 (
        codes
          "Workers and pods communicate with Kubernetes API to register, report status, and access resources")
    ∷ tcp_to public_cidr 12250 12250
        (codes "Workers and pods communicate with control plane for internal cluster operations")
    ∷ tcp_to internet 443 443
        (codes "Workers pull container images and pods call external APIs via HTTPS")
    ∷ tcp_to internet 80 80 (
        codes
          "Workers pull container images from HTTP registries and access OCI pre-authenticated URLs")
    ∷ []

-- The argument of the one call in `_add_oke_security_lists_rules`.
unfoldable pub oke_security_lists_rules : Text → Text → Text → List Text → SlRules
unfolding kubectl_ingress oke_public_ingress oke_public_egress oke_private_ingress
    oke_private_egress
oke_security_lists_rules public_cidr private_cidr svc allowed_cidrs =
    record (no_rules {I = SlIngress} {E = SlEgress}) {
      public_ingress = oke_public_ingress private_cidr ++ map kubectl_ingress allowed_cidrs;
      public_egress = oke_public_egress private_cidr svc;
      private_ingress = oke_private_ingress public_cidr;
      private_egress = oke_private_egress public_cidr svc;
    }
