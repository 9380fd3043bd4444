-- ===== src/DeepCopy/Objects.antt =====
-- The copies of the six kinds of objects.
use kubeception_operator.Base.{Option}
use kubeception_operator.Types.Crd.{LoadbalancerStatus, PkiStatus, ControlPlaneStatus}
use kubeception_operator.DeepCopy.Heap.{Heap}
use kubeception_operator.DeepCopy.Structs.{ObjectOf}
use kubeception_operator.DeepCopy.Into.{
  Copy, deep_copy, deep_copy_object, into_control_plane_spec, into_kube_api_server_spec,
  into_kube_controller_manager_spec, into_kube_scheduler_spec, into_loadbalancer_spec,
  into_pki_spec, StoredControlPlaneSpec, StoredKubeApiServerSpec, StoredKubeControllerManagerSpec,
  StoredKubeSchedulerSpec, StoredLoadbalancerSpec, StoredPkiSpec,
}

-- The copy of their metadata is apimachinery's.
module _ {Meta : Type 0} (copy_meta : Copy Meta) where
  -- What the methods of the six kinds share: they differ in the copy of the specification.
  abbrev into_object : {Spec Status : Type 0} → Copy Spec → Copy (ObjectOf Meta Spec Status)
  into_object copy_spec this h =
      let (meta, h1) = copy_meta this.meta h in
      let (spec, h2) = copy_spec this.spec h1 in (record this { meta = meta; spec = spec }, h2)

  unfoldable pub into_control_plane : Copy (ObjectOf Meta StoredControlPlaneSpec ControlPlaneStatus)
  into_control_plane = into_object into_control_plane_spec

  abbrev pub copy_control_plane :
      Copy (Option (ObjectOf Meta StoredControlPlaneSpec ControlPlaneStatus))
  copy_control_plane = deep_copy into_control_plane

  abbrev pub object_control_plane :
      Option (ObjectOf Meta StoredControlPlaneSpec ControlPlaneStatus)
      → Heap
      → Option (Option (ObjectOf Meta StoredControlPlaneSpec ControlPlaneStatus)) × Heap
  object_control_plane = deep_copy_object into_control_plane

  unfoldable pub into_kube_api_server : Copy (ObjectOf Meta StoredKubeApiServerSpec Unit)
  into_kube_api_server = into_object into_kube_api_server_spec

  abbrev pub copy_kube_api_server : Copy (Option (ObjectOf Meta StoredKubeApiServerSpec Unit))
  copy_kube_api_server = deep_copy into_kube_api_server

  abbrev pub object_kube_api_server :
      Option (ObjectOf Meta StoredKubeApiServerSpec Unit)
      → Heap
      → Option (Option (ObjectOf Meta StoredKubeApiServerSpec Unit)) × Heap
  object_kube_api_server = deep_copy_object into_kube_api_server

  unfoldable pub into_kube_controller_manager :
      Copy (ObjectOf Meta StoredKubeControllerManagerSpec Unit)
  into_kube_controller_manager = into_object into_kube_controller_manager_spec

  abbrev pub copy_kube_controller_manager :
      Copy (Option (ObjectOf Meta StoredKubeControllerManagerSpec Unit))
  copy_kube_controller_manager = deep_copy into_kube_controller_manager

  abbrev pub object_kube_controller_manager :
      Option (ObjectOf Meta StoredKubeControllerManagerSpec Unit)
      → Heap
      → Option (Option (ObjectOf Meta StoredKubeControllerManagerSpec Unit)) × Heap
  object_kube_controller_manager = deep_copy_object into_kube_controller_manager

  unfoldable pub into_kube_scheduler : Copy (ObjectOf Meta StoredKubeSchedulerSpec Unit)
  into_kube_scheduler = into_object into_kube_scheduler_spec

  abbrev pub copy_kube_scheduler : Copy (Option (ObjectOf Meta StoredKubeSchedulerSpec Unit))
  copy_kube_scheduler = deep_copy into_kube_scheduler

  abbrev pub object_kube_scheduler :
      Option (ObjectOf Meta StoredKubeSchedulerSpec Unit)
      → Heap
      → Option (Option (ObjectOf Meta StoredKubeSchedulerSpec Unit)) × Heap
  object_kube_scheduler = deep_copy_object into_kube_scheduler

  unfoldable pub into_loadbalancer : Copy (ObjectOf Meta StoredLoadbalancerSpec LoadbalancerStatus)
  into_loadbalancer = into_object into_loadbalancer_spec

  abbrev pub copy_loadbalancer :
      Copy (Option (ObjectOf Meta StoredLoadbalancerSpec LoadbalancerStatus))
  copy_loadbalancer = deep_copy into_loadbalancer

  abbrev pub object_loadbalancer :
      Option (ObjectOf Meta StoredLoadbalancerSpec LoadbalancerStatus)
      → Heap
      → Option (Option (ObjectOf Meta StoredLoadbalancerSpec LoadbalancerStatus)) × Heap
  object_loadbalancer = deep_copy_object into_loadbalancer

  unfoldable pub into_pki : Copy (ObjectOf Meta StoredPkiSpec PkiStatus)
  into_pki = into_object into_pki_spec

  abbrev pub copy_pki : Copy (Option (ObjectOf Meta StoredPkiSpec PkiStatus))
  copy_pki = deep_copy into_pki

  abbrev pub object_pki :
      Option (ObjectOf Meta StoredPkiSpec PkiStatus)
      → Heap
      → Option (Option (ObjectOf Meta StoredPkiSpec PkiStatus)) × Heap
  object_pki = deep_copy_object into_pki
