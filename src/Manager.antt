-- ===== src/Manager.antt =====
-- cmd/main.go and the `SetupWithManager` methods of internal/controller: which controllers the
-- manager runs, and a change of which objects makes each of them run.
pub mod Watches
pub mod Plans
pub mod Settles
pub mod Rollout
pub mod Liveness
pub mod Tenant
pub mod Main
pub mod Acceptable
pub mod Process
use kubeception_operator.Base.{List, [], ◌∷◌}
use kubeception_operator.Types.Meta.{Key}
use kubeception_operator.Types.Kinds.{Kind}
use kubeception_operator.Platform.Exec.{Exec}
use kubeception_operator.Platform.Interface.{Platform}
use kubeception_operator.Platform.Fetch.{Ending}
use kubeception_operator.ControlPlane
use kubeception_operator.Pki
use kubeception_operator.KubeControllerManager
use kubeception_operator.KubeApiServer
use kubeception_operator.KubeScheduler
use kubeception_operator.LoadBalancer

pub data Controller : Type 0 where
  control_plane pki kube_controller_manager kube_api_server kube_scheduler loadbalancer : Controller

-- The controllers in the order in which `main` sets them up.
abbrev pub controllers : List Controller
controllers =
    Controller.control_plane ∷ Controller.pki ∷ Controller.kube_controller_manager
    ∷ Controller.kube_api_server ∷ Controller.kube_scheduler ∷ Controller.loadbalancer ∷ []

-- `For(...)`
unfoldable pub reconciled : Controller → Kind
reconciled Controller.control_plane = Kind.control_plane
reconciled Controller.pki = Kind.pki
reconciled Controller.kube_controller_manager = Kind.kube_controller_manager
reconciled Controller.kube_api_server = Kind.kube_api_server
reconciled Controller.kube_scheduler = Kind.kube_scheduler
reconciled Controller.loadbalancer = Kind.loadbalancer

-- `Owns(...)`
unfoldable pub owns : Controller → List Kind
owns Controller.control_plane =
    Kind.pki ∷ Kind.kube_api_server ∷ Kind.kube_controller_manager ∷ Kind.loadbalancer ∷ []
owns Controller.pki = Kind.certificate ∷ Kind.issuer ∷ Kind.secret ∷ []
owns Controller.kube_controller_manager = Kind.deployment ∷ Kind.secret ∷ []
owns Controller.kube_api_server = Kind.deployment ∷ Kind.config_map ∷ []
owns Controller.kube_scheduler = Kind.secret ∷ Kind.deployment ∷ []
owns Controller.loadbalancer = Kind.service ∷ []

-- The `Reconcile` method of each controller.
unfoldable pub run : (P : Platform) → Controller → Key → Exec P.State P.Error Ending
run P Controller.control_plane = ControlPlane.reconcile P
run P Controller.pki = Pki.reconcile P
run P Controller.kube_controller_manager = KubeControllerManager.reconcile P
run P Controller.kube_api_server = KubeApiServer.reconcile P
run P Controller.kube_scheduler = KubeScheduler.reconcile P
run P Controller.loadbalancer = LoadBalancer.reconcile P
