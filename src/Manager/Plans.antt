-- ===== src/Manager/Plans.antt =====
-- All controllers against their plans.
use kubeception_operator.Types.Meta.{Key}
use kubeception_operator.Types.Core.{Bytes}
use kubeception_operator.Platform.Interface.{
  Kubeconfig, SchedulerConfiguration, Platform, IsLawful, IsHealthy,
}
use kubeception_operator.Platform.View.{Plan, view, Encodes, Implements}
use kubeception_operator.ControlPlane.Plan as control_plane
use kubeception_operator.Pki.Plan as pki
use kubeception_operator.KubeControllerManager.Plan as controller_manager
use kubeception_operator.KubeApiServer.Plan as api_server
use kubeception_operator.KubeScheduler.Plan as scheduler
use kubeception_operator.LoadBalancer.Plan as load_balancer
use kubeception_operator.Manager.{Controller, run}

-- What each controller promises, as a change of a table of objects.
unfoldable pub plan :
    (Kubeconfig → Bytes) → (SchedulerConfiguration → Bytes) → Controller → Key → Plan
plan encode encode_json Controller.control_plane = control_plane.plan
plan encode encode_json Controller.pki = pki.plan encode
plan encode encode_json Controller.kube_controller_manager = controller_manager.plan encode
plan encode encode_json Controller.kube_api_server = api_server.plan encode
plan encode encode_json Controller.kube_scheduler = scheduler.plan encode encode_json
plan encode encode_json Controller.loadbalancer = load_balancer.plan

-- On a platform where no call fails and both encoders work, a run of any controller, on any request
-- and in any state, returns what its plan returns on the table of the stored objects, and leaves
-- the table that the plan leaves: nothing else about the state matters, and nothing else changes.
pub run-Implements :
    (P : Platform) (L : IsLawful P) (H : IsHealthy P) (E : Encodes P) (c : Controller) (req : Key)
    (s : P.State)
    → Implements P (run P c req s) (plan E.encode E.encode_json c req (view P s))
unfolding run plan
run-Implements P L H E Controller.control_plane = control_plane.reconcile-Implements P L H
run-Implements P L H E Controller.pki = pki.reconcile-Implements P L H E
run-Implements P L H E Controller.kube_controller_manager =
    controller_manager.reconcile-Implements P L H E
run-Implements P L H E Controller.kube_api_server = api_server.reconcile-Implements P L H E
run-Implements P L H E Controller.kube_scheduler = scheduler.reconcile-Implements P L H E
run-Implements P L H E Controller.loadbalancer = load_balancer.reconcile-Implements P L H
