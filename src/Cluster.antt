-- ===== src/Cluster.antt =====
-- The operator among others: runs of its controllers, in any order and on any objects, interleaved
-- with what users, cert-manager and the cloud do.
pub mod Growth
pub mod Grown
pub mod Mounts
pub mod Safety
use kubeception_operator.Base.{◌≡◌, ok}
use kubeception_operator.Types.Meta.{Key}
use kubeception_operator.Types.Crd.{KubeControllerManager}
use kubeception_operator.Types.Kinds.{Kind, Obj}
use kubeception_operator.Platform.Interface.{Platform}
use kubeception_operator.Workloads.{Exists}
use kubeception_operator.Manager.{Controller, run}

module _ (P : Platform) where
  open P use {State, get}

  -- Every object is still there, and no Deployment has changed.
  pub record Grows (s s' : State) : Type 0 where
    pub exists : (k : Kind) (key : Key) → Exists P k key s → Exists P k key s'
    pub deployments : (key : Key) → get Kind.deployment key s' ≡ get Kind.deployment key s

  -- A controller manager names the Secrets of its certificate and of the service accounts as the
  -- Deployment mounts them.
  abbrev pub IsConventional : Controller → Key → State → Type 0
  IsConventional Controller.kube_controller_manager req s =
      (kcm : KubeControllerManager)
      → get Kind.kube_controller_manager req s ≡ ok kcm
      → (kcm.spec.tls.kube_controller_manager ≡ "kube-controller-manager")
        × (kcm.spec.tls.service_accounts_tls ≡ "service-accounts")
  IsConventional _ req s = Unit

  -- A controller runs on some request, or somebody else creates and changes objects, but deletes
  -- none and touches no Deployment.
  pub data Step (s : State) : State → Type 0 where
    run_of : (c : Controller) (req : Key) → IsConventional c req s → Step s (run P c req s).1
    elsewhere : {s' : State} → Grows s s' → Step s s'

  pub data Reach (s : State) : State → Type 0 where
    start : Reach s s
    later : {t u : State} → Reach s t → Step t u → Reach s u
