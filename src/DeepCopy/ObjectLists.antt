-- ===== src/DeepCopy/ObjectLists.antt =====
-- The copies of the six lists of objects.
use kubeception_operator.Base.{Option}
use kubeception_operator.Types.Crd.{LoadbalancerStatus, PkiStatus, ControlPlaneStatus}
use kubeception_operator.DeepCopy.Heap.{Heap}
use kubeception_operator.DeepCopy.Structs.{ObjectOf, ListOf}
use kubeception_operator.DeepCopy.Into.{
  Copy, deep_copy, deep_copy_object, copy_items, StoredControlPlaneSpec, StoredKubeApiServerSpec,
  StoredKubeControllerManagerSpec, StoredKubeSchedulerSpec, StoredLoadbalancerSpec, StoredPkiSpec,
}
use kubeception_operator.DeepCopy.Objects.{
  into_control_plane, into_kube_api_server, into_kube_controller_manager, into_kube_scheduler,
  into_loadbalancer, into_pki,
}

-- The copies of metadata are apimachinery's.
module _ {Meta ListMeta : Type 0} (copy_meta : Copy Meta) (copy_list_meta : Copy ListMeta) where
  -- What the methods of the six lists share: they differ in the copy of an item.
  abbrev into_list : {Item : Type 0} → Copy Item → Copy (ListOf ListMeta Item)
  into_list into this h =
      let (meta, h1) = copy_list_meta this.meta h in
      let (items, h2) = deep_copy (copy_items into) this.items h1 in
      (record this { meta = meta; items = items }, h2)

  unfoldable pub into_control_plane_list :
      Copy (ListOf ListMeta (ObjectOf Meta StoredControlPlaneSpec ControlPlaneStatus))
  into_control_plane_list = into_list (into_control_plane copy_meta)

  abbrev pub copy_control_plane_list :
      Copy (Option (ListOf ListMeta (ObjectOf Meta StoredControlPlaneSpec ControlPlaneStatus)))
  copy_control_plane_list = deep_copy into_control_plane_list

  abbrev pub object_control_plane_list :
      Option (ListOf ListMeta (ObjectOf Meta StoredControlPlaneSpec ControlPlaneStatus))
      → Heap
      → Option (Option (ListOf ListMeta (ObjectOf Meta StoredControlPlaneSpec ControlPlaneStatus)))
        × Heap
  object_control_plane_list = deep_copy_object into_control_plane_list

  unfoldable pub into_kube_api_server_list :
      Copy (ListOf ListMeta (ObjectOf Meta StoredKubeApiServerSpec Unit))
  into_kube_api_server_list = into_list (into_kube_api_server copy_meta)

  abbrev pub copy_kube_api_server_list :
      Copy (Option (ListOf ListMeta (ObjectOf Meta StoredKubeApiServerSpec Unit)))
  copy_kube_api_server_list = deep_copy into_kube_api_server_list

  abbrev pub object_kube_api_server_list :
      Option (ListOf ListMeta (ObjectOf Meta StoredKubeApiServerSpec Unit))
      → Heap
      → Option (Option (ListOf ListMeta (ObjectOf Meta StoredKubeApiServerSpec Unit))) × Heap
  object_kube_api_server_list = deep_copy_object into_kube_api_server_list

  unfoldable pub into_kube_controller_manager_list :
      Copy (ListOf ListMeta (ObjectOf Meta StoredKubeControllerManagerSpec Unit))
  into_kube_controller_manager_list = into_list (into_kube_controller_manager copy_meta)

  abbrev pub copy_kube_controller_manager_list :
      Copy (Option (ListOf ListMeta (ObjectOf Meta StoredKubeControllerManagerSpec Unit)))
  copy_kube_controller_manager_list = deep_copy into_kube_controller_manager_list

  abbrev pub object_kube_controller_manager_list :
      Option (ListOf ListMeta (ObjectOf Meta StoredKubeControllerManagerSpec Unit))
      → Heap
      → Option (Option (ListOf ListMeta (ObjectOf Meta StoredKubeControllerManagerSpec Unit)))
        × Heap
  object_kube_controller_manager_list = deep_copy_object into_kube_controller_manager_list

  unfoldable pub into_kube_scheduler_list :
      Copy (ListOf ListMeta (ObjectOf Meta StoredKubeSchedulerSpec Unit))
  into_kube_scheduler_list = into_list (into_kube_scheduler copy_meta)

  abbrev pub copy_kube_scheduler_list :
      Copy (Option (ListOf ListMeta (ObjectOf Meta StoredKubeSchedulerSpec Unit)))
  copy_kube_scheduler_list = deep_copy into_kube_scheduler_list

  abbrev pub object_kube_scheduler_list :
      Option (ListOf ListMeta (ObjectOf Meta StoredKubeSchedulerSpec Unit))
      → Heap
      → Option (Option (ListOf ListMeta (ObjectOf Meta StoredKubeSchedulerSpec Unit))) × Heap
  object_kube_scheduler_list = deep_copy_object into_kube_scheduler_list

  unfoldable pub into_loadbalancer_list :
      Copy (ListOf ListMeta (ObjectOf Meta StoredLoadbalancerSpec LoadbalancerStatus))
  into_loadbalancer_list = into_list (into_loadbalancer copy_meta)

  abbrev pub copy_loadbalancer_list :
      Copy (Option (ListOf ListMeta (ObjectOf Meta StoredLoadbalancerSpec LoadbalancerStatus)))
  copy_loadbalancer_list = deep_copy into_loadbalancer_list

  abbrev pub object_loadbalancer_list :
      Option (ListOf ListMeta (ObjectOf Meta StoredLoadbalancerSpec LoadbalancerStatus))
      → Heap
      → Option (Option (ListOf ListMeta (ObjectOf Meta StoredLoadbalancerSpec LoadbalancerStatus)))
        × Heap
  object_loadbalancer_list = deep_copy_object into_loadbalancer_list

  unfoldable pub into_pki_list : Copy (ListOf ListMeta (ObjectOf Meta StoredPkiSpec PkiStatus))
  into_pki_list = into_list (into_pki copy_meta)

  abbrev pub copy_pki_list : Copy (Option (ListOf ListMeta (ObjectOf Meta StoredPkiSpec PkiStatus)))
  copy_pki_list = deep_copy into_pki_list

  abbrev pub object_pki_list :
      Option (ListOf ListMeta (ObjectOf Meta StoredPkiSpec PkiStatus))
      → Heap
      → Option (Option (ListOf ListMeta (ObjectOf Meta StoredPkiSpec PkiStatus))) × Heap
  object_pki_list = deep_copy_object into_pki_list
