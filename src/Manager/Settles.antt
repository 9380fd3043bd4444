-- ===== src/Manager/Settles.antt =====
-- A second run of any controller.
use kubeception_operator.Base.{◌≡◌, refl, sym, ap, ◌∙◌, Result, ok, err, some}
use kubeception_operator.Types.Meta.{Key}
use kubeception_operator.Types.Core.{Bytes}
use kubeception_operator.Types.Crd.{Loadbalancer}
use kubeception_operator.Types.Kinds.{Kind}
use kubeception_operator.Platform.Memory.{Table}
use kubeception_operator.Platform.Interface.{
  Kubeconfig, SchedulerConfiguration, Platform, IsLawful, IsHealthy,
}
use kubeception_operator.Platform.View.{view, stored_in, Encodes}
use kubeception_operator.Platform.Settled.{Repeats}
use kubeception_operator.ControlPlane.Settles as control_plane
use kubeception_operator.Pki.Settles as pki
use kubeception_operator.KubeControllerManager.Settles as controller_manager
use kubeception_operator.KubeApiServer.Settles as api_server
use kubeception_operator.KubeScheduler.Settles as scheduler
use kubeception_operator.LoadBalancer.Settles as load_balancer
use kubeception_operator.Manager.{Controller, run}
use kubeception_operator.Manager.Plans.{plan, run-Implements}

-- The names in a specification that must differ: those of the PKI's issuers and certificates, and
-- the Secrets that a run reads from the one that it writes.
abbrev pub NamesApart : Controller → Key → Table → Type 0
NamesApart Controller.pki req t = pki.Apart req t
NamesApart Controller.kube_controller_manager req t = controller_manager.Apart req t
NamesApart Controller.kube_scheduler req t = scheduler.Apart req t
NamesApart _ req t = Unit

plan-Repeats :
    (encode : Kubeconfig → Bytes) (encode_json : SchedulerConfiguration → Bytes) (c : Controller)
    (req : Key) (t : Table)
    → load_balancer.IsOwn req t
    → NamesApart c req t
    → Repeats (plan encode encode_json c req) t
unfolding plan
plan-Repeats encode encode_json Controller.control_plane req t own apart =
    control_plane.plan-Repeats req t
plan-Repeats encode encode_json Controller.pki req t own apart = pki.plan-Repeats encode req t apart
plan-Repeats encode encode_json Controller.kube_controller_manager req t own apart =
    controller_manager.plan-Repeats encode req t apart
plan-Repeats encode encode_json Controller.kube_api_server req t own apart =
    api_server.plan-Repeats encode req t
plan-Repeats encode encode_json Controller.kube_scheduler req t own apart =
    scheduler.plan-Repeats encode encode_json req t apart
plan-Repeats encode encode_json Controller.loadbalancer req t own apart =
    load_balancer.plan-Repeats req t own

module _ (P : Platform) (L : IsLawful P) (H : IsHealthy P) (E : Encodes P) (c : Controller)
    (req : Key) where
  open P use {State, Error, get}

  view-IsOwn : (s : State) → load_balancer.IsOwn req (view P s)
  view-IsOwn s lb found = split (get Kind.loadbalancer req s) refl found
    where
      split :
          (r : Result Error Loadbalancer)
          → get Kind.loadbalancer req s ≡ r
          → stored_in P r ≡ some lb
          → lb.meta.key ≡ req
      split (ok o) e h = L.own_key Kind.loadbalancer req s lb (cc (e, h))
      split (err e') e h = cc h

  -- On a platform where no call fails and both encoders work, a controller that runs again at once
  -- returns the same and changes no object. The PKI's two issuers and its seven certificates must
  -- have different names, and the Secrets that the controller manager's and the scheduler's runs
  -- wait for must not be the ones that they write.
  pub run_settles :
      (s : State)
      → NamesApart c req (view P s)
      → ((run P c req (run P c req s).1).0 ≡ (run P c req s).0)
        × (view P (run P c req (run P c req s).1).1 ≡ view P (run P c req s).1)
  run_settles s apart =
      let first = run-Implements P L H E c req s in
      let second = run-Implements P L H E c req (run P c req s).1 in
      let again =
        ap (plan E.encode E.encode_json c req) first.stores
        ∙ plan-Repeats E.encode E.encode_json c req (view P s) (view-IsOwn s) apart in
      (
        second.returns ∙ ap (λ x. ok (x.0)) again ∙ sym first.returns,
        second.stores ∙ ap (λ x. x.1) again ∙ sym first.stores,
      )
