-- ===== src/DeepCopy/Into.antt =====
-- The DeepCopyInto and DeepCopy methods. A struct is a value, so `*out = *in` is the receiver with
-- its references, and what a method writes to `*out` is what it returns.
use kubeception_operator.Base.{Option, none, some, List, [], ◌∷◌}
use kubeception_operator.DeepCopy.Heap.{Heap, MapRef, SliceRef, copy_map, copy_slice}
use kubeception_operator.DeepCopy.Structs.{
  DeploymentOf, LoadbalancerSpecOf, PkiKubeApiServerOf, PkiSpecOf, KubeApiServerSpecOf,
  KubeControllerManagerSpecOf, KubeSchedulerSpecOf, ControlPlaneSpecOf,
}

-- A method that copies into a new struct.
abbrev pub Copy : Type 0 → Type 0
Copy A = A → Heap → A × Heap

-- Fields that hold no reference, and `out.X = in.X`.
abbrev pub copy_plain : {A : Type 0} → Copy A
copy_plain a h = (a, h)

-- `DeepCopy` on a pointer.
abbrev pub deep_copy : {A : Type 0} → Copy A → Copy (Option A)
deep_copy into none h = (none, h)
deep_copy into (some a) h = let (out, h1) = into a h in (some out, h1)

-- `DeepCopyObject`. The outer option is the interface, the inner one the pointer in it: an interface
-- that holds a nil pointer is not nil.
abbrev pub deep_copy_object : {A : Type 0} → Copy A → Option A → Heap → Option (Option A) × Heap
deep_copy_object into this h =
    let (c, h1) = deep_copy into this h in (elim c [ none ↦ none | some c ↦ some (some c) ], h1)

abbrev pub StoredDeployment : Type 0
StoredDeployment = DeploymentOf MapRef SliceRef

abbrev pub StoredLoadbalancerSpec : Type 0
StoredLoadbalancerSpec = LoadbalancerSpecOf MapRef SliceRef

abbrev pub StoredPkiKubeApiServer : Type 0
StoredPkiKubeApiServer = PkiKubeApiServerOf MapRef SliceRef

abbrev pub StoredPkiSpec : Type 0
StoredPkiSpec = PkiSpecOf MapRef SliceRef

abbrev pub StoredKubeApiServerSpec : Type 0
StoredKubeApiServerSpec = KubeApiServerSpecOf MapRef SliceRef

abbrev pub StoredKubeControllerManagerSpec : Type 0
StoredKubeControllerManagerSpec = KubeControllerManagerSpecOf MapRef SliceRef

abbrev pub StoredKubeSchedulerSpec : Type 0
StoredKubeSchedulerSpec = KubeSchedulerSpecOf MapRef SliceRef

abbrev pub StoredControlPlaneSpec : Type 0
StoredControlPlaneSpec = ControlPlaneSpecOf MapRef SliceRef

unfoldable pub into_deployment : Copy StoredDeployment
into_deployment this h =
    let (labels, h1) = copy_map this.labels h in (record this { labels = labels }, h1)

abbrev pub copy_deployment : Copy (Option StoredDeployment)
copy_deployment = deep_copy into_deployment

unfoldable pub into_loadbalancer_spec : Copy StoredLoadbalancerSpec
into_loadbalancer_spec this h =
    let (selectors, h1) = copy_map this.selectors h in (record this { selectors = selectors }, h1)

abbrev pub copy_loadbalancer_spec : Copy (Option StoredLoadbalancerSpec)
copy_loadbalancer_spec = deep_copy into_loadbalancer_spec

unfoldable pub into_pki_kube_api_server : Copy StoredPkiKubeApiServer
into_pki_kube_api_server this h =
    let (ip_addresses, h1) = copy_slice this.ip_addresses h in
    let (dns_names, h2) = copy_slice this.dns_names h1 in
    (record this { ip_addresses = ip_addresses; dns_names = dns_names }, h2)

abbrev pub copy_pki_kube_api_server : Copy (Option StoredPkiKubeApiServer)
copy_pki_kube_api_server = deep_copy into_pki_kube_api_server

unfoldable pub into_pki_spec : Copy StoredPkiSpec
into_pki_spec this h =
    let (kas, h1) = into_pki_kube_api_server this.kube_api_server h in
    (record this { kube_api_server = kas }, h1)

abbrev pub copy_pki_spec : Copy (Option StoredPkiSpec)
copy_pki_spec = deep_copy into_pki_spec

unfoldable pub into_kube_api_server_spec : Copy StoredKubeApiServerSpec
into_kube_api_server_spec this h =
    let (deployment, h1) = into_deployment this.deployment h in
    (record this { deployment = deployment }, h1)

abbrev pub copy_kube_api_server_spec : Copy (Option StoredKubeApiServerSpec)
copy_kube_api_server_spec = deep_copy into_kube_api_server_spec

unfoldable pub into_kube_controller_manager_spec : Copy StoredKubeControllerManagerSpec
into_kube_controller_manager_spec this h =
    let (deployment, h1) = into_deployment this.deployment h in
    (record this { deployment = deployment }, h1)

abbrev pub copy_kube_controller_manager_spec : Copy (Option StoredKubeControllerManagerSpec)
copy_kube_controller_manager_spec = deep_copy into_kube_controller_manager_spec

unfoldable pub into_kube_scheduler_spec : Copy StoredKubeSchedulerSpec
into_kube_scheduler_spec this h =
    let (deployment, h1) = into_deployment this.deployment h in
    (record this { deployment = deployment }, h1)

abbrev pub copy_kube_scheduler_spec : Copy (Option StoredKubeSchedulerSpec)
copy_kube_scheduler_spec = deep_copy into_kube_scheduler_spec

unfoldable pub into_control_plane_spec : Copy StoredControlPlaneSpec
into_control_plane_spec this h =
    let (lb, h1) = into_loadbalancer_spec this.loadbalancer h in
    let (pki, h2) = into_pki_spec this.pki h1 in
    let (kas, h3) = into_kube_api_server_spec this.kube_api_server h2 in
    let (kcm, h4) = into_kube_controller_manager_spec this.kube_controller_manager h3 in
    let (ks, h5) = into_kube_scheduler_spec this.kube_scheduler h4 in
    (
      record this {
        loadbalancer = lb;
        pki = pki;
        kube_api_server = kas;
        kube_controller_manager = kcm;
        kube_scheduler = ks;
      },
      h5,
    )

abbrev pub copy_control_plane_spec : Copy (Option StoredControlPlaneSpec)
copy_control_plane_spec = deep_copy into_control_plane_spec

-- `for i := range *in { (*in)[i].DeepCopyInto(&(*out)[i]) }`
unfoldable pub copy_items : {A : Type 0} → Copy A → Copy (List A)
copy_items into [] h = ([], h)
copy_items into (a ∷ l) h =
    let (b, h1) = into a h in let (bs, h2) = copy_items into l h1 in (b ∷ bs, h2)
