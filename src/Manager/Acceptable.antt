-- ===== src/Manager/Acceptable.antt =====
-- What the API server checks of the three Deployments.
use kubeception_operator.Types.Crd.{KubeApiServer, KubeControllerManager, KubeScheduler}
use kubeception_operator.Workloads.{IsAcceptable}
use kubeception_operator.KubeApiServer.Deployment.{generate_deployment}
use kubeception_operator.KubeApiServer.Mounts.{api_server_spec-IsAcceptable}
use kubeception_operator.KubeControllerManager
use kubeception_operator.KubeControllerManager.Mounts.{controller_manager_spec-IsAcceptable}
use kubeception_operator.KubeScheduler
use kubeception_operator.KubeScheduler.Mounts.{scheduler_spec-IsAcceptable}

-- Whatever the specifications say, each of the three Deployments selects its own pods, its volumes
-- have different names, and each mount of its containers names one of them.
pub deployments-IsAcceptable :
    (kas : KubeApiServer) (kcm : KubeControllerManager) (ks : KubeScheduler)
    → IsAcceptable (generate_deployment kas).spec
      × IsAcceptable (KubeControllerManager.deployment_spec kcm)
      × IsAcceptable (KubeScheduler.deployment_spec ks)
deployments-IsAcceptable kas kcm ks = (
  api_server_spec-IsAcceptable kas,
  controller_manager_spec-IsAcceptable kcm,
  scheduler_spec-IsAcceptable ks,
)
