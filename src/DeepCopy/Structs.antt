-- ===== src/DeepCopy/Structs.antt =====
-- The structs of api/v1alpha1/*_types.go as they lie in memory: what a map or a slice is stands
-- open, so that one type serves for the references and for what is read through them. A struct that
-- holds neither is the one of Types.Crd.
use kubeception_operator.Base.{String, Option, List}
use kubeception_operator.Base.Int.{ℤ}
use kubeception_operator.Types.Crd.{
  Service, KubeApiServerTls, KubeApiServerOptions, KubeControllerManagerTls, PkiCa,
  PkiServiceAccounts, PkiAdmin, PkiKubeControllerManager, PkiKubeScheduler, PkiKonnectivity,
}

module _ (Map Slice : Type 0) where
  pub record DeploymentOf : Type 0 where
    pub name : String
    pub replicas : ℤ
    pub labels : Map

  pub record LoadbalancerSpecOf : Type 0 where
    pub name : String
    pub port : ℤ
    pub selectors : Map

  pub record PkiKubeApiServerOf : Type 0 where
    pub name : String
    pub ip_addresses : Slice
    pub dns_names : Slice

  pub record PkiSpecOf : Type 0 where
    pub name : String
    pub control_plane_ip : String
    pub ca : PkiCa
    pub service_accounts : PkiServiceAccounts
    pub admin : PkiAdmin
    pub kube_api_server : PkiKubeApiServerOf
    pub kube_controller_manager : PkiKubeControllerManager
    pub kube_scheduler : PkiKubeScheduler
    pub konnectivity : PkiKonnectivity

  pub record KubeApiServerSpecOf : Type 0 where
    pub version : String
    pub etcd_servers : String
    pub deployment : DeploymentOf
    pub tls : KubeApiServerTls
    pub options : KubeApiServerOptions

  pub record KubeControllerManagerSpecOf : Type 0 where
    pub version : String
    pub tls : KubeControllerManagerTls
    pub deployment : DeploymentOf
    pub kube_api_server_service : Service

  pub record KubeSchedulerSpecOf : Type 0 where
    pub version : String
    pub kube_api_server_service : Service
    pub kube_scheduler_tls : String
    pub deployment : DeploymentOf

  pub record ControlPlaneSpecOf : Type 0 where
    pub version : String
    pub loadbalancer : LoadbalancerSpecOf
    pub pki : PkiSpecOf
    pub kube_api_server : KubeApiServerSpecOf
    pub kube_controller_manager : KubeControllerManagerSpecOf
    pub kube_scheduler : KubeSchedulerSpecOf

-- `metav1.TypeMeta`
pub record TypeMeta : Type 0 where
  pub kind : String
  pub api_version : String

-- One of the six kinds of objects, with the metadata of apimachinery.
pub record ObjectOf (Meta Spec Status : Type 0) : Type 0 where
  pub type_meta : TypeMeta
  pub meta : Meta
  pub spec : Spec
  pub status : Status

-- A list of objects of one kind. The array of its items is a value here, so that two lists never
-- share one; what the items refer to is in the heap.
pub record ListOf (ListMeta Item : Type 0) : Type 0 where
  pub type_meta : TypeMeta
  pub meta : ListMeta
  pub items : Option (List Item)
