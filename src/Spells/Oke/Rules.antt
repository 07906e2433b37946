-- ===== src/Spells/Oke/Rules.antt =====
-- The rules of the four security groups of a cluster.
use cloudspells.Common.{ℕ, ◌+◌, Option, none, some, List, [], ◌∷◌, ◌++◌}
use cloudspells.Common.Text.{Text, codes, or_text}
use cloudspells.Naming.{ResourceNamer, create_resource_name, ordinal_suffix}
use cloudspells.Rules.{PortRange, internet}
use cloudspells.Nsg.Defs.{Direction, ingress, egress, tcp, all_protocols, tcp_port, tcp_port_range}

pub data OkeGroup : Type 0 where
  api lb worker pod : OkeGroup

-- The source of an ingress rule, the destination of an egress rule.
pub data OkePeer : Type 0 where
  group : OkeGroup → OkePeer
  cidr : Text → OkePeer
  services : Text → OkePeer

pub record OkeRule : Type 0 where
  pub name : Text
  pub nsg : OkeGroup
  pub direction : Direction
  pub protocol : Text
  pub peer : OkePeer
  pub tcp_options : Option PortRange
  pub description : Text

-- `_r`, with the name of the rule from its suffix
unfoldable pub oke_rule :
    ResourceNamer → OkeGroup → Text → Direction → Text → OkePeer → Option PortRange → Text → OkeRule
oke_rule n nsg suffix direction protocol peer tcp_options description = record {
  name = create_resource_name n suffix;
  nsg = nsg;
  direction = direction;
  protocol = protocol;
  peer = peer;
  tcp_options = tcp_options;
  description = or_text description (create_resource_name n suffix);
}

-- The rules for the networks that `kubectl` may come from, from an index on.
unfoldable pub kubectl_rules : ResourceNamer → ℕ → List Text → List OkeRule
unfolding oke_rule tcp_port
kubectl_rules n index [] = []
kubectl_rules n index (allowed ∷ cidrs) =
    oke_rule n api (ordinal_suffix (codes "api-nsg-ingress-kubectl") index) ingress tcp
      (cidr allowed) (some (tcp_port 6443))
      (codes "External kubectl and CI tooling reach the Kubernetes API from " ++ allowed)
    ∷ kubectl_rules n (index + 1) cidrs

unfoldable pub api_ingress_rules : ResourceNamer → List OkeRule
unfolding oke_rule tcp_port
api_ingress_rules n =
    oke_rule n api (codes "api-nsg-ingress-worker-6443") ingress tcp (group worker)
      (some (tcp_port 6443)) (codes "Worker nodes reach Kubernetes API server")
    ∷ oke_rule n api (codes "api-nsg-ingress-worker-12250") ingress tcp (group worker)
        (some (tcp_port 12250)) (codes "Worker nodes reach Kubernetes control-plane internal port")
    ∷ oke_rule n api (codes "api-nsg-ingress-pod-6443") ingress tcp (group pod)
        (some (tcp_port 6443))
        (codes "Pods reach Kubernetes API server for service discovery and RBAC")
    ∷ oke_rule n api (codes "api-nsg-ingress-pod-12250") ingress tcp (group pod)
        (some (tcp_port 12250)) (codes "Pods reach Kubernetes control-plane internal port")
    ∷ []

unfoldable pub api_egress_rules : ResourceNamer → Text → List OkeRule
unfolding oke_rule tcp_port
api_egress_rules n svc =
    oke_rule n api (codes "api-nsg-egress-services") egress all_protocols (services svc) none
      (codes "Control plane sends telemetry and management traffic to OCI services")
    ∷ oke_rule n api (codes "api-nsg-egress-worker-kubelet") egress tcp (group worker)
        (some (tcp_port 10250))
        (codes "Control plane calls kubelet on worker nodes for pod lifecycle operations")
    ∷ oke_rule n api (codes "api-nsg-egress-pod-all") egress all_protocols (group pod) none
        (codes "Control plane reaches pods on arbitrary ports for webhooks, exec, and metrics")
    ∷ []

-- `_add_api_nsg_rules`
unfoldable pub add_api_nsg_rules : ResourceNamer → Text → List Text → List OkeRule
unfolding api_ingress_rules api_egress_rules kubectl_rules
add_api_nsg_rules n svc allowed_cidrs =
    api_ingress_rules n ++ (kubectl_rules n 0 allowed_cidrs ++ api_egress_rules n svc)

-- `_add_lb_nsg_rules`
unfoldable pub add_lb_nsg_rules : ResourceNamer → List OkeRule
unfolding oke_rule tcp_port tcp_port_range
add_lb_nsg_rules n =
    oke_rule n lb (codes "lb-nsg-ingress-https") ingress tcp (cidr internet) (some (tcp_port 443))
      (codes "Internet reaches the load balancer on HTTPS")
    ∷ oke_rule n lb (codes "lb-nsg-ingress-http") ingress tcp (cidr internet) (some (tcp_port 80))
        (codes "Internet reaches the load balancer on HTTP")
    ∷ oke_rule n lb (codes "lb-nsg-egress-nodeport") egress tcp (group worker)
        (some (tcp_port_range 30000 32767))
        (codes "Load balancer forwards requests to worker nodes via NodePort")
    ∷ oke_rule n lb (codes "lb-nsg-egress-kubeproxy") egress tcp (group worker)
        (some (tcp_port 10256))
        (codes "Load balancer queries kube-proxy health check before routing")
    ∷ []

-- `_add_worker_nsg_rules`
unfoldable pub add_worker_nsg_rules : ResourceNamer → Text → List OkeRule
unfolding oke_rule tcp_port tcp_port_range
add_worker_nsg_rules n svc =
    oke_rule n worker (codes "worker-nsg-ingress-api-kubelet") ingress tcp (group api)
      (some (tcp_port 10250))
      (codes "Control plane calls kubelet for pod lifecycle, logs, and exec")
    ∷ oke_rule n worker (codes "worker-nsg-ingress-lb-nodeport") ingress tcp (group lb)
        (some (tcp_port_range 30000 32767))
        (codes "Load balancer forwards requests to workers via NodePort")
    ∷ oke_rule n worker (codes "worker-nsg-ingress-lb-kubeproxy") ingress tcp (group lb)
        (some (tcp_port 10256)) (codes "Load balancer health-checks worker via kube-proxy")
    ∷ oke_rule n worker (codes "worker-nsg-ingress-pod-all") ingress all_protocols (group pod) none
        (codes "Pods communicate with worker VNIC for OCI CNI VNIC-native networking")
    ∷ oke_rule n worker (codes "worker-nsg-ingress-worker-all") ingress all_protocols (group worker)
        none
        (codes "Node-to-node traffic for OCI CNI pod communication across availability domains")
    ∷ oke_rule n worker (codes "worker-nsg-egress-api-6443") egress tcp (group api)
        (some (tcp_port 6443)) (codes "Workers register with and query the Kubernetes API server")
    ∷ oke_rule n worker (codes "worker-nsg-egress-api-12250") egress tcp (group api)
        (some (tcp_port 12250)) (codes "Workers communicate with control plane on internal port")
    ∷ oke_rule n worker (codes "worker-nsg-egress-services") egress all_protocols (services svc)
        none (codes "Workers pull images from OCIR and send metrics and logs to OCI services")
    ∷ oke_rule n worker (codes "worker-nsg-egress-pod-all") egress all_protocols (group pod) none
        (codes "Workers reach pod VNICs for OCI CNI VNIC-native networking")
    ∷ oke_rule n worker (codes "worker-nsg-egress-worker-all") egress all_protocols (group worker)
        none
        (codes "Node-to-node traffic for OCI CNI pod communication across availability domains")
    ∷ oke_rule n worker (codes "worker-nsg-egress-inet-443") egress tcp (cidr internet)
        (some (tcp_port 443))
        (codes "Workers pull container images and call external APIs via HTTPS")
    ∷ oke_rule n worker (codes "worker-nsg-egress-inet-80") egress tcp (cidr internet)
        (some (tcp_port 80))
        (codes "Workers pull images from HTTP registries and access OCI pre-authenticated URLs")
    ∷ []

-- `_add_pod_nsg_rules`
unfoldable pub add_pod_nsg_rules : ResourceNamer → Text → List OkeRule
unfolding oke_rule tcp_port
add_pod_nsg_rules n svc =
    oke_rule n pod (codes "pod-nsg-ingress-api-all") ingress all_protocols (group api) none (
      codes
        "Control plane reaches pods on arbitrary ports for webhooks, exec, and metrics scraping")
    ∷ oke_rule n pod (codes "pod-nsg-ingress-worker-all") ingress all_protocols (group worker) none
        (codes "Worker nodes reach pod VNICs for OCI CNI VNIC-native networking")
    ∷ oke_rule n pod (codes "pod-nsg-ingress-pod-all") ingress all_protocols (group pod) none
        (codes "Pod-to-pod communication (east-west traffic between workloads)")
    ∷ oke_rule n pod (codes "pod-nsg-egress-pod-all") egress all_protocols (group pod) none
        (codes "Pod-to-pod communication (east-west traffic between workloads)")
    ∷ oke_rule n pod (codes "pod-nsg-egress-worker-all") egress all_protocols (group worker) none
        (codes "Pods reach worker VNICs for OCI CNI VNIC-native networking")
    ∷ oke_rule n pod (codes "pod-nsg-egress-api-6443") egress tcp (group api) (some (tcp_port 6443))
        (codes "Pods reach Kubernetes API server for service discovery and RBAC")
    ∷ oke_rule n pod (codes "pod-nsg-egress-api-12250") egress tcp (group api)
        (some (tcp_port 12250)) (codes "Pods reach control-plane internal port")
    ∷ oke_rule n pod (codes "pod-nsg-egress-services") egress all_protocols (services svc) none
        (codes "Pods reach OCI services for object storage, monitoring, and logging")
    ∷ oke_rule n pod (codes "pod-nsg-egress-inet-443") egress tcp (cidr internet)
        (some (tcp_port 443)) (codes "Pods call external APIs and download dependencies via HTTPS")
    ∷ oke_rule n pod (codes "pod-nsg-egress-inet-80") egress tcp (cidr internet)
        (some (tcp_port 80)) (codes "Pods access HTTP endpoints and OCI pre-authenticated URLs")
    ∷ []
