-- ===== src/Types/Crd.antt =====
-- The operator's own resources (api/v1alpha1/*_types.go).
use kubeception_operator.Base.{ℕ, String, Bool, List}
use kubeception_operator.Base.Int.{ℤ}
use kubeception_operator.Base.Dict.{Dict}
use kubeception_operator.Types.Meta.{Object}

-- kubeapiserver_types.go. An `int32` is an integer, a `uint` a natural number.
pub record Deployment : Type 0 where
  pub name : String
  pub replicas : ℤ
  pub labels : Dict String

pub record Service : Type 0 where
  pub name : String
  pub port : ℕ

pub record KubeApiServerTls : Type 0 where
  pub ca_secret_name : String
  pub kube_api_server_secret_name : String
  pub service_accounts_secret_name : String
  pub konnectivity_secret_name : String

pub record KubeApiServerOptions : Type 0 where
  pub advertise_address : String
  pub service_cluster_ip_range : String

pub record KubeApiServerSpec : Type 0 where
  pub version : String
  pub etcd_servers : String
  pub deployment : Deployment
  pub tls : KubeApiServerTls
  pub options : KubeApiServerOptions

abbrev pub KubeApiServerStatus : Type 0
KubeApiServerStatus = Unit

abbrev pub KubeApiServer : Type 0
KubeApiServer = Object KubeApiServerSpec KubeApiServerStatus

-- kubecontrollermanager_types.go
pub record KubeControllerManagerTls : Type 0 where
  pub ca : String
  pub kube_controller_manager : String
  pub service_accounts_tls : String

pub record KubeControllerManagerSpec : Type 0 where
  pub version : String
  pub tls : KubeControllerManagerTls
  pub deployment : Deployment
  pub kube_api_server_service : Service

abbrev pub KubeControllerManagerStatus : Type 0
KubeControllerManagerStatus = Unit

abbrev pub KubeControllerManager : Type 0
KubeControllerManager = Object KubeControllerManagerSpec KubeControllerManagerStatus

-- kubescheduler_types.go
pub record KubeSchedulerSpec : Type 0 where
  pub version : String
  pub kube_api_server_service : Service
  pub kube_scheduler_tls : String
  pub deployment : Deployment

abbrev pub KubeSchedulerStatus : Type 0
KubeSchedulerStatus = Unit

abbrev pub KubeScheduler : Type 0
KubeScheduler = Object KubeSchedulerSpec KubeSchedulerStatus

-- loadbalancer_types.go
pub record LoadbalancerSpec : Type 0 where
  pub name : String
  pub port : ℤ
  pub selectors : Dict String

pub record LoadbalancerStatus : Type 0 where
  pub ip : String

abbrev pub Loadbalancer : Type 0
Loadbalancer = Object LoadbalancerSpec LoadbalancerStatus

-- pki_types.go
pub record PkiCa : Type 0 where
  pub name : String

pub record PkiServiceAccounts : Type 0 where
  pub name : String

pub record PkiAdmin : Type 0 where
  pub name : String

pub record PkiKubeApiServer : Type 0 where
  pub name : String
  pub ip_addresses : List String
  pub dns_names : List String

pub record PkiKubeControllerManager : Type 0 where
  pub name : String

pub record PkiKubeScheduler : Type 0 where
  pub name : String

pub record PkiKonnectivity : Type 0 where
  pub name : String

pub record PkiSpec : Type 0 where
  pub name : String
  pub control_plane_ip : String
  pub ca : PkiCa
  pub service_accounts : PkiServiceAccounts
  pub admin : PkiAdmin
  pub kube_api_server : PkiKubeApiServer
  pub kube_controller_manager : PkiKubeControllerManager
  pub kube_scheduler : PkiKubeScheduler
  pub konnectivity : PkiKonnectivity

pub record PkiStatus : Type 0 where
  pub ready : Bool

abbrev pub Pki : Type 0
Pki = Object PkiSpec PkiStatus

-- controlplane_types.go
pub record ControlPlaneSpec : Type 0 where
  pub version : String
  pub loadbalancer : LoadbalancerSpec
  pub pki : PkiSpec
  pub kube_api_server : KubeApiServerSpec
  pub kube_controller_manager : KubeControllerManagerSpec
  pub kube_scheduler : KubeSchedulerSpec

pub record ControlPlaneStatus : Type 0 where
  pub status : String

abbrev pub ControlPlane : Type 0
ControlPlane = Object ControlPlaneSpec ControlPlaneStatus
