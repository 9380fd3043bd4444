-- ===== src/ControlPlane/Footprint.antt =====
-- What a run of the control plane's reconciler can touch, and how it can end.
use kubeception_operator.Base.{◌≡◌, ◌≢◌, refl, Result, err, Fault, panic}
use kubeception_operator.Types.Meta.{Key}
use kubeception_operator.Types.Crd.{ControlPlane}
use kubeception_operator.Types.Kinds.{Kind, Obj}
use kubeception_operator.Types.Kinds.Zero.{fresh}
use kubeception_operator.Platform.Interface.{Platform, IsLawful}
use kubeception_operator.Platform.Fetch.{done}
use kubeception_operator.Platform.Effects.{
  Touches, Touches-pure, Touches-bind, Touches-or_done, Touches-apply_owned,
}
use kubeception_operator.Platform.Panics.{
  NoPanic, NoPanic-pure, NoPanic-bind, NoPanic-or_done, NoPanic-apply_owned,
}
use kubeception_operator.ControlPlane.{
  mutate_loadbalancer, mutate_pki, mutate_kube_controller_manager, mutate_kube_scheduler, apply,
  sync, reconcile,
}
use kubeception_operator.ControlPlane.Children.{mutate_kube_api_server_lem}

-- The kinds that a control plane is split into.
abbrev pub IsChild : Kind → Type 0
IsChild Kind.loadbalancer = Unit
IsChild Kind.pki = Unit
IsChild Kind.kube_api_server = Unit
IsChild Kind.kube_controller_manager = Unit
IsChild Kind.kube_scheduler = Unit
IsChild _ = ⊥

abbrev IsOwn : Key → Kind → Key → Type 0
IsOwn req k key = IsChild k × (key ≡ req)

module _ (P : Platform) (L : IsLawful P) (req : Key) where
  open P use {State, Error, get}

  apply-Touches :
      (cp : ControlPlane) (k : Kind) (f : Obj k → Result (Fault Error) (Obj k))
      → IsChild k
      → Touches P (IsOwn req) (apply P cp req k f)
  unfolding apply
  apply-Touches cp k f c =
      Touches-apply_owned L Kind.control_plane cp.meta k (fresh k req.namespace req.name) f
        (c, refl)

  sync-Touches : (cp : ControlPlane) → Touches P (IsOwn req) (sync P req cp)
  unfolding sync
  sync-Touches cp = search (Touches-bind, Touches-pure, apply-Touches) depth 12

  -- However a run ends, it has left alone every object but the five children with the control
  -- plane's own name.
  pub reconcile_kept :
      (s : State) (l : Kind) (key : Key)
      → ¬ (IsChild l × (key ≡ req))
      → get l key (reconcile P req s).1 ≡ get l key s
  unfolding reconcile
  reconcile_kept =
      (Touches-or_done (get Kind.control_plane req) (λ cp. sync P req cp) sync-Touches).kept

  apply-NoPanic :
      (cp : ControlPlane) (k : Kind) (f : Obj k → Result (Fault Error) (Obj k))
      → ((base : Obj k) → f base ≢ err panic)
      → NoPanic (apply P cp req k f)
  unfolding apply
  apply-NoPanic cp k f n =
      NoPanic-apply_owned P L Kind.control_plane cp.meta k (fresh k req.namespace req.name) f n

  sync-NoPanic : (cp : ControlPlane) → NoPanic (sync P req cp)
  unfolding sync mutate_loadbalancer mutate_pki mutate_kube_controller_manager mutate_kube_scheduler
  sync-NoPanic cp = NoPanic-bind _ _ (apply-NoPanic cp _ _ (λ b h. cc h)) λ lb.
      NoPanic-bind _ _ (apply-NoPanic cp _ _ (λ b h. cc h)) λ _.
        NoPanic-bind _ _
          (apply-NoPanic cp _ _ (λ b h. cc (mutate_kube_api_server_lem {E = Error} cp lb b, h)))
          λ _.
            NoPanic-bind _ _ (apply-NoPanic cp _ _ (λ b h. cc h))
              λ _. NoPanic-bind _ _ (apply-NoPanic cp _ _ (λ b h. cc h)) λ _. NoPanic-pure done

  -- No run panics: the labels are never written to a nil map.
  pub reconcile-ne-panic : (s : State) → (reconcile P req s).0 ≢ err panic
  unfolding reconcile
  reconcile-ne-panic =
      (NoPanic-or_done P (λ cp. sync P req cp) (get Kind.control_plane req) sync-NoPanic).sound
