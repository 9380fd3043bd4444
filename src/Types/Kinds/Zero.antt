-- ===== src/Types/Kinds/Zero.antt =====
-- Go's zero values: what a struct literal leaves out.
use kubeception_operator.Base.{String, false, none, []}
use kubeception_operator.Base.Int.{pos}
use kubeception_operator.Base.Dict.{nil}
use kubeception_operator.Types.Meta.{named}
use kubeception_operator.Types.Crd.{
  Deployment, Service, LoadbalancerSpec, PkiSpec, KubeApiServerSpec, KubeControllerManagerSpec,
  KubeSchedulerSpec,
}
use kubeception_operator.Types.Core.{cluster_ip}
use kubeception_operator.Types.CertManager.{unset}
use kubeception_operator.Types.Kinds.{Kind, Spec, Status, Obj}

abbrev zero_deployment : Deployment
zero_deployment = record { name = ""; replicas = pos 0; labels = nil }

abbrev zero_service : Service
zero_service = record { name = ""; port = 0 }

abbrev pub zero_loadbalancer : LoadbalancerSpec
zero_loadbalancer = record { name = ""; port = pos 0; selectors = nil }

abbrev pub zero_pki : PkiSpec
zero_pki = record {
  name = "";
  control_plane_ip = "";
  ca = record { name = "" };
  service_accounts = record { name = "" };
  admin = record { name = "" };
  kube_api_server = record { name = ""; ip_addresses = []; dns_names = [] };
  kube_controller_manager = record { name = "" };
  kube_scheduler = record { name = "" };
  konnectivity = record { name = "" };
}

abbrev pub zero_kube_api_server : KubeApiServerSpec
zero_kube_api_server = record {
  version = "";
  etcd_servers = "";
  deployment = zero_deployment;
  tls = record {
    ca_secret_name = "";
    kube_api_server_secret_name = "";
    service_accounts_secret_name = "";
    konnectivity_secret_name = "";
  };
  options = record { advertise_address = ""; service_cluster_ip_range = "" };
}

abbrev pub zero_kube_controller_manager : KubeControllerManagerSpec
zero_kube_controller_manager = record {
  version = "";
  tls = record { ca = ""; kube_controller_manager = ""; service_accounts_tls = "" };
  deployment = zero_deployment;
  kube_api_server_service = zero_service;
}

abbrev pub zero_kube_scheduler : KubeSchedulerSpec
zero_kube_scheduler = record {
  version = "";
  kube_api_server_service = zero_service;
  kube_scheduler_tls = "";
  deployment = zero_deployment;
}

abbrev pub zero_spec : (k : Kind) → Spec k
zero_spec Kind.control_plane = record {
  version = "";
  loadbalancer = zero_loadbalancer;
  pki = zero_pki;
  kube_api_server = zero_kube_api_server;
  kube_controller_manager = zero_kube_controller_manager;
  kube_scheduler = zero_kube_scheduler;
}
zero_spec Kind.loadbalancer = zero_loadbalancer
zero_spec Kind.pki = zero_pki
zero_spec Kind.kube_api_server = zero_kube_api_server
zero_spec Kind.kube_controller_manager = zero_kube_controller_manager
zero_spec Kind.kube_scheduler = zero_kube_scheduler
zero_spec Kind.secret = nil
zero_spec Kind.config_map = nil
zero_spec Kind.service = record { service_type = cluster_ip; ports = []; selector = nil }
zero_spec Kind.deployment = record {
  replicas = none;
  strategy = none;
  selector = nil;
  template = record {
    labels = nil;
    spec = record { volumes = []; containers = []; automount_service_account_token = none };
  };
}
zero_spec Kind.issuer = unset
zero_spec Kind.certificate = record {
  is_ca = false;
  common_name = "";
  subject = none;
  ip_addresses = [];
  dns_names = [];
  secret_name = "";
  private_key = none;
  issuer_ref = record { name = ""; kind = "" };
}

abbrev pub zero_status : (k : Kind) → Status k
zero_status Kind.control_plane = record { status = "" }
zero_status Kind.loadbalancer = record { ip = "" }
zero_status Kind.pki = record { ready = false }
zero_status Kind.service = record { ingress = [] }
zero_status _ = tt

-- `&T{ObjectMeta: metav1.ObjectMeta{Name: name, Namespace: namespace}}`
abbrev pub fresh : (k : Kind) → String → String → Obj k
fresh k namespace name = record {
  meta = named namespace name;
  spec = zero_spec k;
  status = zero_status k;
}
