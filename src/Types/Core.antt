-- ===== src/Types/Core.antt =====
-- The Kubernetes objects that the reconcilers fill, with the fields that they set or read.
use kubeception_operator.Base.{ℕ, String, Bool, Option, List}
use kubeception_operator.Base.Int.{ℤ}
use kubeception_operator.Base.Dict.{Dict}

abbrev pub Bytes : Type 0
Bytes = List ℕ

-- `Data` of a Secret and of a ConfigMap.
abbrev pub SecretData : Type 0
SecretData = Dict Bytes

abbrev pub ConfigMapData : Type 0
ConfigMapData = Dict String

pub data ServiceType : Type 0 where
  cluster_ip node_port load_balancer : ServiceType

pub data Protocol : Type 0 where
  tcp udp : Protocol

pub record ServicePort : Type 0 where
  pub name : String
  pub port : ℤ
  pub protocol : Protocol
  pub target_port : ℤ

pub record ServiceSpec : Type 0 where
  pub service_type : ServiceType
  pub ports : List ServicePort
  pub selector : Dict String

-- `Status.LoadBalancer.Ingress`, with the addresses only.
pub record Ingress : Type 0 where
  pub ip : String

pub record ServiceStatus : Type 0 where
  pub ingress : List Ingress

pub data VolumeSource : Type 0 where
  secret : String → VolumeSource
  config_map : String → VolumeSource
  empty_dir : VolumeSource

pub record Volume : Type 0 where
  pub name : String
  pub source : VolumeSource

pub record VolumeMount : Type 0 where
  pub name : String
  pub mount_path : String

pub record ContainerPort : Type 0 where
  pub name : String
  pub container_port : ℤ

-- An environment variable that is taken from a field of the pod.
pub record EnvVar : Type 0 where
  pub name : String
  pub field_path : String

pub data UriScheme : Type 0 where
  http https : UriScheme

pub record HttpGetAction : Type 0 where
  pub port : ℤ
  pub path : String
  pub scheme : UriScheme

-- A `success_threshold` that is not set is 0.
pub record Probe : Type 0 where
  pub initial_delay_seconds : ℕ
  pub timeout_seconds : ℕ
  pub failure_threshold : ℕ
  pub period_seconds : ℕ
  pub success_threshold : ℕ
  pub http_get : HttpGetAction

pub record Container : Type 0 where
  pub name : String
  pub image : String
  pub command : List String
  pub args : List String
  pub env : List EnvVar
  pub ports : List ContainerPort
  pub volume_mounts : List VolumeMount
  pub liveness_probe : Option Probe
  pub readiness_probe : Option Probe

pub record PodSpec : Type 0 where
  pub volumes : List Volume
  pub containers : List Container
  pub automount_service_account_token : Option Bool

pub record PodTemplateSpec : Type 0 where
  pub labels : Dict String
  pub spec : PodSpec

pub record RollingUpdate : Type 0 where
  pub max_unavailable : ℤ

pub record DeploymentSpec : Type 0 where
  pub replicas : Option ℤ
  pub strategy : Option RollingUpdate
  pub selector : Dict String
  pub template : PodTemplateSpec
