-- ===== src/Types/Kinds.antt =====
-- The kinds of objects that the program names, and the type of the objects of each.
pub mod Same
pub mod Zero
use kubeception_operator.Base.{String}
use kubeception_operator.Types.Meta.{Object, Key}
use kubeception_operator.Types.Crd.{
  ControlPlaneSpec, ControlPlaneStatus, LoadbalancerSpec, LoadbalancerStatus, PkiSpec, PkiStatus,
  KubeApiServerSpec, KubeApiServerStatus, KubeControllerManagerSpec, KubeControllerManagerStatus,
  KubeSchedulerSpec, KubeSchedulerStatus,
}
use kubeception_operator.Types.Core.{
  SecretData, ConfigMapData, ServiceSpec, ServiceStatus, DeploymentSpec,
}
use kubeception_operator.Types.CertManager.{IssuerSpec, CertificateSpec}

pub data Kind : Type 0 where
  control_plane loadbalancer pki kube_api_server kube_controller_manager kube_scheduler : Kind
  secret config_map service deployment : Kind
  issuer certificate : Kind

abbrev pub Spec : Kind → Type 0
Spec Kind.control_plane = ControlPlaneSpec
Spec Kind.loadbalancer = LoadbalancerSpec
Spec Kind.pki = PkiSpec
Spec Kind.kube_api_server = KubeApiServerSpec
Spec Kind.kube_controller_manager = KubeControllerManagerSpec
Spec Kind.kube_scheduler = KubeSchedulerSpec
Spec Kind.secret = SecretData
Spec Kind.config_map = ConfigMapData
Spec Kind.service = ServiceSpec
Spec Kind.deployment = DeploymentSpec
Spec Kind.issuer = IssuerSpec
Spec Kind.certificate = CertificateSpec

-- The observed state, where the program reads or writes it.
abbrev pub Status : Kind → Type 0
Status Kind.control_plane = ControlPlaneStatus
Status Kind.loadbalancer = LoadbalancerStatus
Status Kind.pki = PkiStatus
Status Kind.kube_api_server = KubeApiServerStatus
Status Kind.kube_controller_manager = KubeControllerManagerStatus
Status Kind.kube_scheduler = KubeSchedulerStatus
Status Kind.service = ServiceStatus
Status _ = Unit

abbrev pub Obj : Kind → Type 0
Obj k = Object (Spec k) (Status k)

-- `obj.GetObjectKind().GroupVersionKind().Kind`
abbrev pub kind_name : Kind → String
kind_name Kind.control_plane = "ControlPlane"
kind_name Kind.loadbalancer = "Loadbalancer"
kind_name Kind.pki = "Pki"
kind_name Kind.kube_api_server = "KubeAPIServer"
kind_name Kind.kube_controller_manager = "KubeControllerManager"
kind_name Kind.kube_scheduler = "KubeScheduler"
kind_name Kind.secret = "Secret"
kind_name Kind.config_map = "ConfigMap"
kind_name Kind.service = "Service"
kind_name Kind.deployment = "Deployment"
kind_name Kind.issuer = "Issuer"
kind_name Kind.certificate = "Certificate"
