-- ===== src/Examples/Copying.antt =====
-- A deep copy of a control plane whose API server has a label, and of a list that holds it.
use kubeception_operator.Base.{◌≡◌, refl, none, some, [], ◌∷◌, arith}
use kubeception_operator.Types.Crd.{ControlPlaneStatus}
use kubeception_operator.Base.Dict.{find}
use kubeception_operator.Base.Int.{pos}
use kubeception_operator.Examples.{cp_spec}
use kubeception_operator.DeepCopy.Heap.{Heap, MapRef, copy_map, copy_slice, fill, set_cell}
use kubeception_operator.DeepCopy.Structs.{ObjectOf, ListOf}
use kubeception_operator.DeepCopy.Into.{
  StoredControlPlaneSpec, into_control_plane_spec, into_loadbalancer_spec, into_pki_spec,
  into_pki_kube_api_server, into_kube_api_server_spec, into_deployment,
}
use kubeception_operator.DeepCopy.Objects.{into_control_plane}
use kubeception_operator.DeepCopy.ObjectLists.{into_control_plane_list}
use kubeception_operator.DeepCopy.Shape.{Shape, IsWellFormed, Copies}
use kubeception_operator.DeepCopy.Basic.{map_shape, set_cell-NodupKeys, copy_map-IsDeepCopy}
use kubeception_operator.DeepCopy.Copies.{control_plane_spec_shape}
use kubeception_operator.DeepCopy.Runs.{object_shape, objects-IsDeepCopy, labels_isolated}
use kubeception_operator.DeepCopy.Lists.{object_list_shape, lists-IsDeepCopy}

-- One map, which holds one label.
abbrev heap : Heap
heap = record { next = 1; maps = set_cell (λ r. []) 0 (("tenant", "blue") ∷ []); slices = λ r. [] }

heap-IsWellFormed : IsWellFormed heap
unfolding find
heap-IsWellFormed r =
    set_cell-NodupKeys (λ r. []) 0 (("tenant", "blue") ∷ []) r (λ p. tt) (refl, tt)

-- A control plane that lies in the heap: its API server's labels are the map, and its metadata is
-- taken to be a map of labels too.
abbrev stored : ObjectOf MapRef StoredControlPlaneSpec ControlPlaneStatus
stored = record {
  type_meta = record {
    kind = "ControlPlane";
    api_version = "cluster.kubeception.ulfo.fr/v1alpha1";
  };
  meta = none;
  spec = record {
    version = "v1.26.0";
    loadbalancer = record { name = "kube-apiserver"; port = pos 6443; selectors = none };
    pki = record {
      name = "root";
      control_plane_ip = "";
      ca = cp_spec.pki.ca;
      service_accounts = cp_spec.pki.service_accounts;
      admin = cp_spec.pki.admin;
      kube_api_server = record { name = "kube-apiserver"; ip_addresses = none; dns_names = none };
      kube_controller_manager = cp_spec.pki.kube_controller_manager;
      kube_scheduler = cp_spec.pki.kube_scheduler;
      konnectivity = cp_spec.pki.konnectivity;
    };
    kube_api_server = record {
      version = "";
      etcd_servers = "http://etcd:2379";
      deployment = record { name = "kube-apiserver"; replicas = pos 3; labels = some 0 };
      tls = cp_spec.kube_api_server.tls;
      options = cp_spec.kube_api_server.options;
    };
    kube_controller_manager = record {
      version = "";
      tls = cp_spec.kube_controller_manager.tls;
      deployment = record { name = ""; replicas = pos 3; labels = none };
      kube_api_server_service = record { name = "kube-apiserver"; port = 6443 };
    };
    kube_scheduler = record {
      version = "";
      kube_api_server_service = record { name = "kube-apiserver"; port = 6443 };
      kube_scheduler_tls = "kube-scheduler";
      deployment = record { name = ""; replicas = pos 3; labels = none };
    };
  };
  status = record { status = "" };
}

abbrev shape : Shape (ObjectOf MapRef StoredControlPlaneSpec ControlPlaneStatus)
shape = object_shape map_shape copy_map copy_map-IsDeepCopy control_plane_spec_shape

stored_within : shape.Within 0 1 stored
stored_within = (tt, (tt, ((tt, tt), ((omega arith, omega arith), (tt, tt)))))

objects-IsDeepCopy_example : Copies shape stored heap (into_control_plane copy_map stored heap)
objects-IsDeepCopy_example =
    (objects-IsDeepCopy map_shape copy_map copy_map-IsDeepCopy).0 stored heap heap-IsWellFormed
      stored_within

labels_copied :
    (into_control_plane copy_map stored heap).0.spec.kube_api_server.deployment.labels ≡ some 1
unfolding into_control_plane into_control_plane_spec into_loadbalancer_spec into_pki_spec
    into_pki_kube_api_server into_kube_api_server_spec into_deployment copy_map copy_slice fill
labels_copied = refl

labels_isolated_example :
    shape.see (fill 1 (("tenant", "red") ∷ []) (into_control_plane copy_map stored heap).1) stored
    ≡ shape.see heap stored
labels_isolated_example =
    labels_isolated map_shape copy_map copy_map-IsDeepCopy stored heap (("tenant", "red") ∷ []) 1
      heap-IsWellFormed stored_within labels_copied

abbrev items : ListOf MapRef (ObjectOf MapRef StoredControlPlaneSpec ControlPlaneStatus)
items = record { type_meta = stored.type_meta; meta = some 0; items = some (stored ∷ stored ∷ []) }

lists-IsDeepCopy_example :
    Copies
      (object_list_shape map_shape map_shape copy_map copy_map copy_map-IsDeepCopy
        copy_map-IsDeepCopy shape)
      items
      heap
      (into_control_plane_list copy_map copy_map items heap)
lists-IsDeepCopy_example =
    (lists-IsDeepCopy map_shape map_shape copy_map copy_map copy_map-IsDeepCopy
        copy_map-IsDeepCopy).0
      items heap heap-IsWellFormed
      ((omega arith, omega arith), (stored_within, (stored_within, tt)))
