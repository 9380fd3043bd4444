-- ===== src/DeepCopy/Copies.antt =====
-- The generated methods copy deeply: the structs of the specifications. For each, how its fields are
-- read, and the proof from those of its parts.
use kubeception_operator.Base.{refl}
use kubeception_operator.DeepCopy.Heap.{copy_map, copy_slice}
use kubeception_operator.DeepCopy.Structs.{
  DeploymentOf, LoadbalancerSpecOf, PkiKubeApiServerOf, PkiSpecOf, KubeApiServerSpecOf,
  KubeControllerManagerSpecOf, KubeSchedulerSpecOf, ControlPlaneSpecOf,
}
use kubeception_operator.DeepCopy.Into
use kubeception_operator.DeepCopy.Into.{
  Copy, into_deployment, into_loadbalancer_spec, into_pki_kube_api_server, into_pki_spec,
  into_kube_api_server_spec, into_kube_controller_manager_spec, into_kube_scheduler_spec,
  into_control_plane_spec,
}
use kubeception_operator.DeepCopy.Shape.{
  Shape, IsDeepCopy, pair, copy_pair, copy_pair-IsDeepCopy, struct, struct-IsDeepCopy,
}
use kubeception_operator.DeepCopy.Basic.{
  MapSeen, SliceSeen, map_shape, slice_shape, copy_map-IsDeepCopy, copy_slice-IsDeepCopy,
}

abbrev pub deployment_seen : Into.StoredDeployment → MapSeen → DeploymentOf MapSeen SliceSeen
deployment_seen a x = record { name = a.name; replicas = a.replicas; labels = x }

abbrev pub deployment_shape : Shape Into.StoredDeployment
deployment_shape = struct map_shape (λ a. a.labels) deployment_seen

pub into_deployment-IsDeepCopy : IsDeepCopy deployment_shape into_deployment
unfolding into_deployment
into_deployment-IsDeepCopy =
    struct-IsDeepCopy map_shape (λ a. a.labels) deployment_seen into_deployment copy_map
      (λ a h. refl) (λ a h. refl) (λ a h x. refl) copy_map-IsDeepCopy

abbrev pub loadbalancer_spec_seen :
    Into.StoredLoadbalancerSpec → MapSeen → LoadbalancerSpecOf MapSeen SliceSeen
loadbalancer_spec_seen a x = record { name = a.name; port = a.port; selectors = x }

abbrev pub loadbalancer_spec_shape : Shape Into.StoredLoadbalancerSpec
loadbalancer_spec_shape = struct map_shape (λ a. a.selectors) loadbalancer_spec_seen

pub into_loadbalancer_spec-IsDeepCopy : IsDeepCopy loadbalancer_spec_shape into_loadbalancer_spec
unfolding into_loadbalancer_spec
into_loadbalancer_spec-IsDeepCopy =
    struct-IsDeepCopy map_shape (λ a. a.selectors) loadbalancer_spec_seen into_loadbalancer_spec
      copy_map (λ a h. refl) (λ a h. refl) (λ a h x. refl) copy_map-IsDeepCopy

abbrev pub pki_kube_api_server_seen :
    Into.StoredPkiKubeApiServer → SliceSeen × SliceSeen → PkiKubeApiServerOf MapSeen SliceSeen
pki_kube_api_server_seen a x = record { name = a.name; ip_addresses = x.0; dns_names = x.1 }

abbrev pub pki_kube_api_server_shape : Shape Into.StoredPkiKubeApiServer
pki_kube_api_server_shape =
    struct (pair slice_shape slice_shape) (λ a. (a.ip_addresses, a.dns_names))
      pki_kube_api_server_seen

pub into_pki_kube_api_server-IsDeepCopy :
    IsDeepCopy pki_kube_api_server_shape into_pki_kube_api_server
unfolding into_pki_kube_api_server
into_pki_kube_api_server-IsDeepCopy =
    struct-IsDeepCopy (pair slice_shape slice_shape) (λ a. (a.ip_addresses, a.dns_names))
      pki_kube_api_server_seen into_pki_kube_api_server (copy_pair copy_slice copy_slice)
      (λ a h. refl) (λ a h. refl) (λ a h x. refl)
      (copy_pair-IsDeepCopy slice_shape slice_shape copy_slice copy_slice copy_slice-IsDeepCopy
        copy_slice-IsDeepCopy)

abbrev pub pki_spec_seen :
    Into.StoredPkiSpec → PkiKubeApiServerOf MapSeen SliceSeen → PkiSpecOf MapSeen SliceSeen
pki_spec_seen a x = record {
  name = a.name;
  control_plane_ip = a.control_plane_ip;
  ca = a.ca;
  service_accounts = a.service_accounts;
  admin = a.admin;
  kube_api_server = x;
  kube_controller_manager = a.kube_controller_manager;
  kube_scheduler = a.kube_scheduler;
  konnectivity = a.konnectivity;
}

abbrev pub pki_spec_shape : Shape Into.StoredPkiSpec
pki_spec_shape = struct pki_kube_api_server_shape (λ a. a.kube_api_server) pki_spec_seen

pub into_pki_spec-IsDeepCopy : IsDeepCopy pki_spec_shape into_pki_spec
unfolding into_pki_spec
into_pki_spec-IsDeepCopy =
    struct-IsDeepCopy pki_kube_api_server_shape (λ a. a.kube_api_server) pki_spec_seen into_pki_spec
      into_pki_kube_api_server (λ a h. refl) (λ a h. refl) (λ a h x. refl)
      into_pki_kube_api_server-IsDeepCopy

abbrev pub kube_api_server_spec_seen :
    Into.StoredKubeApiServerSpec
    → DeploymentOf MapSeen SliceSeen
    → KubeApiServerSpecOf MapSeen SliceSeen
kube_api_server_spec_seen a x = record {
  version = a.version;
  etcd_servers = a.etcd_servers;
  deployment = x;
  tls = a.tls;
  options = a.options;
}

abbrev pub kube_api_server_spec_shape : Shape Into.StoredKubeApiServerSpec
kube_api_server_spec_shape = struct deployment_shape (λ a. a.deployment) kube_api_server_spec_seen

pub into_kube_api_server_spec-IsDeepCopy :
    IsDeepCopy kube_api_server_spec_shape into_kube_api_server_spec
unfolding into_kube_api_server_spec
into_kube_api_server_spec-IsDeepCopy =
    struct-IsDeepCopy deployment_shape (λ a. a.deployment) kube_api_server_spec_seen
      into_kube_api_server_spec into_deployment (λ a h. refl) (λ a h. refl) (λ a h x. refl)
      into_deployment-IsDeepCopy

abbrev pub kube_controller_manager_spec_seen :
    Into.StoredKubeControllerManagerSpec
    → DeploymentOf MapSeen SliceSeen
    → KubeControllerManagerSpecOf MapSeen SliceSeen
kube_controller_manager_spec_seen a x = record {
  version = a.version;
  tls = a.tls;
  deployment = x;
  kube_api_server_service = a.kube_api_server_service;
}

abbrev pub kube_controller_manager_spec_shape : Shape Into.StoredKubeControllerManagerSpec
kube_controller_manager_spec_shape =
    struct deployment_shape (λ a. a.deployment) kube_controller_manager_spec_seen

pub into_kube_controller_manager_spec-IsDeepCopy :
    IsDeepCopy kube_controller_manager_spec_shape into_kube_controller_manager_spec
unfolding into_kube_controller_manager_spec
into_kube_controller_manager_spec-IsDeepCopy =
    struct-IsDeepCopy deployment_shape (λ a. a.deployment) kube_controller_manager_spec_seen
      into_kube_controller_manager_spec into_deployment (λ a h. refl) (λ a h. refl) (λ a h x. refl)
      into_deployment-IsDeepCopy

abbrev pub kube_scheduler_spec_seen :
    Into.StoredKubeSchedulerSpec
    → DeploymentOf MapSeen SliceSeen
    → KubeSchedulerSpecOf MapSeen SliceSeen
kube_scheduler_spec_seen a x = record {
  version = a.version;
  kube_api_server_service = a.kube_api_server_service;
  kube_scheduler_tls = a.kube_scheduler_tls;
  deployment = x;
}

abbrev pub kube_scheduler_spec_shape : Shape Into.StoredKubeSchedulerSpec
kube_scheduler_spec_shape = struct deployment_shape (λ a. a.deployment) kube_scheduler_spec_seen

pub into_kube_scheduler_spec-IsDeepCopy :
    IsDeepCopy kube_scheduler_spec_shape into_kube_scheduler_spec
unfolding into_kube_scheduler_spec
into_kube_scheduler_spec-IsDeepCopy =
    struct-IsDeepCopy deployment_shape (λ a. a.deployment) kube_scheduler_spec_seen
      into_kube_scheduler_spec into_deployment (λ a h. refl) (λ a h. refl) (λ a h x. refl)
      into_deployment-IsDeepCopy

abbrev pub control_plane_spec_seen :
    Into.StoredControlPlaneSpec
    → LoadbalancerSpecOf MapSeen SliceSeen
      × (PkiSpecOf MapSeen SliceSeen
          × (KubeApiServerSpecOf MapSeen SliceSeen
              × (KubeControllerManagerSpecOf MapSeen SliceSeen
                  × KubeSchedulerSpecOf MapSeen SliceSeen)))
    → ControlPlaneSpecOf MapSeen SliceSeen
control_plane_spec_seen a x = record {
  version = a.version;
  loadbalancer = x.0;
  pki = x.1.0;
  kube_api_server = x.1.1.0;
  kube_controller_manager = x.1.1.1.0;
  kube_scheduler = x.1.1.1.1;
}

abbrev pub control_plane_spec_shape : Shape Into.StoredControlPlaneSpec
control_plane_spec_shape =
    struct
      (pair loadbalancer_spec_shape (
        pair pki_spec_shape (
          pair kube_api_server_spec_shape
            (pair kube_controller_manager_spec_shape kube_scheduler_spec_shape))))
      (λ a. (
        a.loadbalancer,
        (a.pki, (a.kube_api_server, (a.kube_controller_manager, a.kube_scheduler))),
      ))
      control_plane_spec_seen

pub into_control_plane_spec-IsDeepCopy : IsDeepCopy control_plane_spec_shape into_control_plane_spec
unfolding into_control_plane_spec
into_control_plane_spec-IsDeepCopy =
    struct-IsDeepCopy
      (pair loadbalancer_spec_shape (
        pair pki_spec_shape (
          pair kube_api_server_spec_shape
            (pair kube_controller_manager_spec_shape kube_scheduler_spec_shape))))
      (λ a. (
        a.loadbalancer,
        (a.pki, (a.kube_api_server, (a.kube_controller_manager, a.kube_scheduler))),
      ))
      control_plane_spec_seen into_control_plane_spec
      (copy_pair into_loadbalancer_spec (
        copy_pair into_pki_spec (
          copy_pair into_kube_api_server_spec
            (copy_pair into_kube_controller_manager_spec into_kube_scheduler_spec))))
      (λ a h. refl) (λ a h. refl) (λ a h x. refl)
      (copy_pair-IsDeepCopy loadbalancer_spec_shape
        (pair pki_spec_shape (
          pair kube_api_server_spec_shape
            (pair kube_controller_manager_spec_shape kube_scheduler_spec_shape)))
        into_loadbalancer_spec
        (copy_pair into_pki_spec (
          copy_pair into_kube_api_server_spec
            (copy_pair into_kube_controller_manager_spec into_kube_scheduler_spec)))
        into_loadbalancer_spec-IsDeepCopy
        (copy_pair-IsDeepCopy pki_spec_shape
          (pair kube_api_server_spec_shape
            (pair kube_controller_manager_spec_shape kube_scheduler_spec_shape))
          into_pki_spec
          (copy_pair into_kube_api_server_spec
            (copy_pair into_kube_controller_manager_spec into_kube_scheduler_spec))
          into_pki_spec-IsDeepCopy
          (copy_pair-IsDeepCopy kube_api_server_spec_shape
            (pair kube_controller_manager_spec_shape kube_scheduler_spec_shape)
            into_kube_api_server_spec
            (copy_pair into_kube_controller_manager_spec into_kube_scheduler_spec)
            into_kube_api_server_spec-IsDeepCopy
            (copy_pair-IsDeepCopy kube_controller_manager_spec_shape kube_scheduler_spec_shape
              into_kube_controller_manager_spec into_kube_scheduler_spec
              into_kube_controller_manager_spec-IsDeepCopy into_kube_scheduler_spec-IsDeepCopy))))
