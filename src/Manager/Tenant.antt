-- ===== src/Manager/Tenant.antt =====
-- A tenant's control plane comes up.
use kubeception_operator.Base.{◌≡◌, refl, sym, ap, ◌∙◌, subst, ok, List, [], ◌∷◌}
use kubeception_operator.Types.Meta.{Key}
use kubeception_operator.Types.Crd.{
  ControlPlane, KubeApiServerSpec, KubeControllerManagerSpec, KubeSchedulerSpec,
}
use kubeception_operator.Types.Kinds.{Kind}
use kubeception_operator.Platform.Interface.{Platform, IsLawful, IsHealthy}
use kubeception_operator.Platform.View.{view, stored_in, Encodes}
use kubeception_operator.Platform.Advances.{AllHeld}
use kubeception_operator.Workloads.{Exists}
use kubeception_operator.Utils.{beside}
use kubeception_operator.ControlPlane
use kubeception_operator.ControlPlane.Children.{IsSynced}
use kubeception_operator.ControlPlane.Footprint.{reconcile_kept}
use kubeception_operator.ControlPlane.Runs.{reconcile_succeeds}
use kubeception_operator.Manager.Liveness.{Component, Ready, In, run_all, bring_up}

module _ (req : Key) where
  abbrev pub api_server_names : KubeApiServerSpec → List Key
  api_server_names spec =
      beside req spec.tls.konnectivity_secret_name
      ∷ beside req spec.tls.ca_secret_name
      ∷ beside req spec.tls.kube_api_server_secret_name
      ∷ beside req spec.tls.service_accounts_secret_name
      ∷ []

  abbrev pub controller_manager_names : KubeControllerManagerSpec → List Key
  controller_manager_names spec =
      beside req spec.tls.kube_controller_manager
      ∷ beside req spec.tls.service_accounts_tls
      ∷ beside req spec.tls.ca
      ∷ []

  abbrev pub scheduler_names : KubeSchedulerSpec → List Key
  scheduler_names spec = beside req spec.kube_scheduler_tls ∷ []

  -- The Secrets that a control plane names for a component, and the key of the Deployment.
  abbrev pub named_secrets : Component → ControlPlane → List Key
  named_secrets Component.api_server cp = api_server_names cp.spec.kube_api_server
  named_secrets Component.controller_manager cp =
      controller_manager_names cp.spec.kube_controller_manager
  named_secrets Component.scheduler cp = scheduler_names cp.spec.kube_scheduler

  abbrev pub deployment_key : Component → ControlPlane → Key
  deployment_key Component.api_server cp = beside req cp.spec.kube_api_server.deployment.name
  deployment_key Component.controller_manager cp = beside req "kube-controller-manager"
  deployment_key Component.scheduler cp = beside req "kube-scheduler"

module _ (P : Platform) (L : IsLawful P) (H : IsHealthy P) (E : Encodes P) (req : Key) where
  open P use {State, Error, get}

  abbrev pub after_split : State → State
  after_split s = (ControlPlane.reconcile P req s).1

  secrets_kept :
      (keys : List Key) (s : State)
      → AllHeld (view P s) keys
      → AllHeld (view P (after_split s)) keys
  secrets_kept [] s all = tt
  secrets_kept (key ∷ keys) s ((o, at), rest) = (
    (o, ap (stored_in P) (reconcile_kept P L req s Kind.secret key (λ h. h.0)) ∙ at),
    secrets_kept keys s rest,
  )

  -- The children have what their components wait for.
  split-Ready :
      (c : Component) (cp : ControlPlane) (s : State)
      → IsSynced P req cp s (after_split s)
      → AllHeld (view P (after_split s)) (named_secrets req c cp)
      → Ready P L H E req c (deployment_key req c cp) (after_split s)
  split-Ready Component.api_server cp s synced held = (
    synced.kas,
    ap (stored_in P) synced.kas_stored,
    ap (λ (spec : KubeApiServerSpec). beside req spec.deployment.name) (sym synced.kas_spec),
    subst (λ spec. AllHeld (view P (after_split s)) (api_server_names req spec))
        (sym synced.kas_spec) held,
  )
  split-Ready Component.controller_manager cp s synced held = (
    synced.kcm,
    ap (stored_in P) synced.kcm_stored,
    refl,
    subst (λ spec. AllHeld (view P (after_split s)) (controller_manager_names req spec))
        (sym synced.kcm_spec) held,
  )
  split-Ready Component.scheduler cp s synced held = (
    synced.ks,
    ap (stored_in P) synced.ks_stored,
    refl,
    subst (λ spec. AllHeld (view P (after_split s)) (scheduler_names req spec)) (sym synced.ks_spec)
        held,
  )

  -- On a platform where no call fails and both encoders work: the control plane is there, with the
  -- Secrets that it names for a component. Its controller runs, and then the three components'
  -- controllers in any order, each any number of times, the component's own among them. Then the
  -- component's Deployment is there.
  pub control_plane_comes_up :
      (cs : List Component) (c : Component) (cp : ControlPlane) (s : State)
      → get Kind.control_plane req s ≡ ok cp
      → AllHeld (view P s) (named_secrets req c cp)
      → In P L H E req c cs
      → Exists P Kind.deployment (deployment_key req c cp) (run_all P L H E req cs (after_split s))
  control_plane_comes_up cs c cp s found held among =
      bring_up P L H E req cs c (deployment_key req c cp) (after_split s) among (
        split-Ready c cp s ((reconcile_succeeds P L req H cp s found).1)
          (secrets_kept (named_secrets req c cp) s held))
