-- ===== src/DeepCopy/Runs.antt =====
-- The generated methods copy deeply: the six kinds of objects, and what a controller may do with a
-- copy.
use kubeception_operator.Base.{
  ℕ, zero, ◌≡◌, ◌≢◌, refl, subst, ◌∙◌, String, Option, none, some, [], ◌∷◌, arith,
}
use kubeception_operator.Base.Dict.{Entries}
use kubeception_operator.Types.Crd.{ControlPlaneStatus}
use kubeception_operator.DeepCopy.Heap.{Heap, fill, set_entry}
use kubeception_operator.DeepCopy.Structs.{ObjectOf}
use kubeception_operator.DeepCopy.Into.{
  Copy, StoredControlPlaneSpec, deep_copy_object, into_control_plane_spec,
  into_kube_api_server_spec, into_kube_controller_manager_spec, into_kube_scheduler_spec,
  into_loadbalancer_spec, into_pki_spec,
}
use kubeception_operator.DeepCopy.Objects.{
  into_control_plane, into_kube_api_server, into_kube_controller_manager, into_kube_scheduler,
  into_loadbalancer, into_pki,
}
use kubeception_operator.DeepCopy.Shape.{
  Shape, IsWellFormed, IsDeepCopy, pair, copy_pair, copy_pair-IsDeepCopy, struct, struct-IsDeepCopy,
}
use kubeception_operator.DeepCopy.Basic.{RefWithin, set_cell_other}
use kubeception_operator.DeepCopy.Copies.{
  control_plane_spec_shape, kube_api_server_spec_shape, kube_controller_manager_spec_shape,
  kube_scheduler_spec_shape, loadbalancer_spec_shape, pki_spec_shape,
  into_control_plane_spec-IsDeepCopy, into_kube_api_server_spec-IsDeepCopy,
  into_kube_controller_manager_spec-IsDeepCopy, into_kube_scheduler_spec-IsDeepCopy,
  into_loadbalancer_spec-IsDeepCopy, into_pki_spec-IsDeepCopy,
}

-- The loop writes only the cell of its map.
fill_elsewhere :
    (r : ℕ) (source : Entries String) (h : Heap) (q : ℕ)
    → r ≢ q
    → ((fill r source h).maps q ≡ h.maps q) × ((fill r source h).slices q ≡ h.slices q)
unfolding fill
fill_elsewhere r [] h q n = (refl, refl)
fill_elsewhere r ((key, val) ∷ source) h q n =
    let (m, s) = fill_elsewhere r source (set_entry r key val h) q n in
    (m ∙ set_cell_other h.maps r _ q n, s)

-- The copy of metadata, which is apimachinery's.
module _ {Meta : Type 0} (M : Shape Meta) (copy_meta : Copy Meta)
    (meta : IsDeepCopy M copy_meta) where
  abbrev pub object_seen :
      {Spec Seen Status : Type 0}
      → ObjectOf Meta Spec Status
      → M.Seen × Seen
      → ObjectOf M.Seen Seen Status
  object_seen a x = record { type_meta = a.type_meta; meta = x.0; spec = x.1; status = a.status }

  abbrev pub object_shape : {Spec Status : Type 0} → Shape Spec → Shape (ObjectOf Meta Spec Status)
  object_shape S = struct (pair M S) (λ a. (a.meta, a.spec)) object_seen

  -- Every kind of object is copied deeply, if its metadata is: what is read through the copy's
  -- references is what the original reads, nil or not; they are to new cells; and no cell that was
  -- there has changed.
  pub objects-IsDeepCopy :
      IsDeepCopy (object_shape control_plane_spec_shape) (into_control_plane copy_meta)
      × IsDeepCopy (object_shape kube_api_server_spec_shape) (into_kube_api_server copy_meta)
      × IsDeepCopy
          (object_shape kube_controller_manager_spec_shape)
          (into_kube_controller_manager copy_meta)
      × IsDeepCopy (object_shape kube_scheduler_spec_shape) (into_kube_scheduler copy_meta)
      × IsDeepCopy (object_shape loadbalancer_spec_shape) (into_loadbalancer copy_meta)
      × IsDeepCopy (object_shape pki_spec_shape) (into_pki copy_meta)
  unfolding into_control_plane into_kube_api_server into_kube_controller_manager into_kube_scheduler
      into_loadbalancer into_pki
  objects-IsDeepCopy = (
    of control_plane_spec_shape into_control_plane_spec into_control_plane_spec-IsDeepCopy,
    of kube_api_server_spec_shape into_kube_api_server_spec into_kube_api_server_spec-IsDeepCopy,
    of kube_controller_manager_spec_shape into_kube_controller_manager_spec
        into_kube_controller_manager_spec-IsDeepCopy,
    of kube_scheduler_spec_shape into_kube_scheduler_spec into_kube_scheduler_spec-IsDeepCopy,
    of loadbalancer_spec_shape into_loadbalancer_spec into_loadbalancer_spec-IsDeepCopy,
    of pki_spec_shape into_pki_spec into_pki_spec-IsDeepCopy,
  )
    where
      of :
          {Spec Status : Type 0} (S : Shape Spec) (copy_spec : Copy Spec)
          → IsDeepCopy S copy_spec
          → IsDeepCopy (object_shape {Status = Status} S) λ a h.
            let (m, h1) = copy_meta a.meta h in
            let (s, h2) = copy_spec a.spec h1 in (record a { meta = m; spec = s }, h2)
      of S copy_spec spec =
          struct-IsDeepCopy (pair M S) (λ a. (a.meta, a.spec)) object_seen _
            (copy_pair copy_meta copy_spec) (λ a h. refl) (λ a h. refl) (λ a h x. refl)
            (copy_pair-IsDeepCopy M S copy_meta copy_spec meta spec)

  -- The label loop of the control plane's controller, on a deep copy of a control plane: whatever it
  -- writes to the labels of the API server, the original reads as before.
  pub labels_isolated :
      (cp : ObjectOf Meta StoredControlPlaneSpec ControlPlaneStatus) (h : Heap)
      (source : Entries String) (labels : ℕ)
      → IsWellFormed h
      → (object_shape control_plane_spec_shape).Within zero h.next cp
      → (into_control_plane copy_meta cp h).0.spec.kube_api_server.deployment.labels ≡ some labels
      → (object_shape control_plane_spec_shape).see
          (fill labels source (into_control_plane copy_meta cp h).1)
          cp
        ≡ (object_shape control_plane_spec_shape).see h cp
  labels_isolated cp h source labels wf within is_labels =
      let copies = (objects-IsDeepCopy.0) cp h wf within in
      let apart =
        subst (RefWithin h.next (into_control_plane copy_meta cp h).1.next) is_labels
          (copies.apart.1.1.1.0) in
      (object_shape control_plane_spec_shape).see_local zero h.next cp h _ within λ q low below.
        let (m, s) =
          fill_elsewhere labels source (into_control_plane copy_meta cp h).1 q
            (omega (arith, apart, below)) in
        let (m', s') = copies.kept q low below in (m ∙ m', s ∙ s')

-- `DeepCopyObject` returns a nil interface for a nil pointer, never an interface that holds one.
pub deep_copy_object-ne-some :
    {A : Type 0} (into : Copy A) (this : Option A) (h : Heap)
    → (deep_copy_object into this h).0 ≢ some none
deep_copy_object-ne-some into none h e = cc e
deep_copy_object-ne-some into (some a) h e = cc e
