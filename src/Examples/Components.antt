-- ===== src/Examples/Components.antt =====
-- Runs of the reconcilers of the API server, the controller manager and the scheduler.
use mathlib.Core.Option.{or_else}
use kubeception_operator.Types.Meta.{Key}
use kubeception_operator.Types.Kinds.Same.{cast}
use kubeception_operator.Base.{err, String_discrete, ◌≡◌, ◌≢◌, refl, inl, inr, String, ok, [], ◌∷◌}
use kubeception_operator.Types.Kinds.{Kind}
use kubeception_operator.Platform.Fetch.{done, requeue_after}
use kubeception_operator.Platform.Memory.{
  Table, not_found, update, open_memory, open_memory-IsHealthy,
}
use kubeception_operator.Utils.{beside}
use kubeception_operator.Workloads.{IsAcceptable, SourcesExist}
use kubeception_operator.KubeApiServer
use kubeception_operator.KubeApiServer.Deployment.{generate_deployment}
use kubeception_operator.KubeApiServer.Runs as api_server
use kubeception_operator.KubeApiServer.Defers.{api_server_defers}
use kubeception_operator.KubeApiServer.Mounts.{api_server-SourcesExist}
use kubeception_operator.KubeControllerManager
use kubeception_operator.KubeControllerManager.Runs as controller_manager
use kubeception_operator.KubeControllerManager.Mounts.{
  Mounts, controller_manager-SourcesExist, deployment_spec-ignores_names,
}
use kubeception_operator.KubeScheduler
use kubeception_operator.Manager.Acceptable.{deployments-IsAcceptable}
use kubeception_operator.KubeScheduler.Runs as scheduler
use kubeception_operator.KubeScheduler.Mounts.{scheduler-SourcesExist}
use kubeception_operator.Examples.{
  with_secret, req, kas, kcm, ks, issued, split_cluster, full_cluster, kcm_found, kas_full,
  kcm_full, ks_full, secret-IsMissing, ca_found, accounts_found, api_server_found,
  controller_manager_found, scheduler_found, konnectivity_found, generated, lawful,
}

api_server_deploys_example :
    ((KubeApiServer.reconcile open_memory req full_cluster).0 ≡ ok done)
    × api_server.IsDeployed open_memory req kas
        (1 ∷ 3 ∷ 2 ∷ [])
        (KubeApiServer.reconcile open_memory req full_cluster).1
api_server_deploys_example =
    api_server.api_server_deploys open_memory lawful req kas (issued "konnectivity")
      (1 ∷ 3 ∷ 2 ∷ []) (generated "konnectivity" "https://kube-apiserver:6443")
      open_memory-IsHealthy full_cluster kas_full konnectivity_found
      ((λ e. cc e), (issued "ca", ca_found))
      ((λ e. cc e), (issued "kube-apiserver", api_server_found))
      ((λ e. cc e), (issued "service-accounts", accounts_found))

api_server-SourcesExist_example :
    SourcesExist open_memory req
      (generate_deployment kas).spec.template.spec.volumes
      (KubeApiServer.reconcile open_memory req full_cluster).1
api_server-SourcesExist_example =
    api_server-SourcesExist open_memory lawful req kas full_cluster kas_full (
      (api_server.api_server_deploys open_memory lawful req kas (issued "konnectivity")
        (1 ∷ 3 ∷ 2 ∷ []) (generated "konnectivity" "https://kube-apiserver:6443")
        open_memory-IsHealthy full_cluster kas_full konnectivity_found
        ((λ e. cc e), (issued "ca", ca_found))
        ((λ e. cc e), (issued "kube-apiserver", api_server_found))
        ((λ e. cc e), (issued "service-accounts", accounts_found))).0)

-- The cluster with the Secret of the konnectivity certificate alone.
abbrev deferring : Table
deferring = with_secret "konnectivity" split_cluster

kas_deferring : open_memory.get Kind.kube_api_server req deferring ≡ ok kas
unfolding update or_else cast String_discrete
kas_deferring = refl

konnectivity_deferring :
    open_memory.get Kind.secret (beside req "konnectivity") deferring ≡ ok (issued "konnectivity")
unfolding update or_else cast String_discrete
konnectivity_deferring = refl

accounts_deferring :
    open_memory.get Kind.secret (beside req "service-accounts") deferring ≡ err not_found
unfolding update or_else cast String_discrete
accounts_deferring = refl

api_server_defers_example :
    ((KubeApiServer.reconcile open_memory req deferring).0 ≡ ok (requeue_after 3))
    × ((key : Key)
        → open_memory.get Kind.deployment key (KubeApiServer.reconcile open_memory req deferring).1
          ≡ open_memory.get Kind.deployment key deferring)
api_server_defers_example =
    api_server_defers open_memory lawful req kas (issued "konnectivity") (1 ∷ 3 ∷ 2 ∷ [])
      (generated "konnectivity" "https://kube-apiserver:6443") open_memory-IsHealthy deferring
      kas_deferring konnectivity_deferring
      (inr (inr ((λ e. cc e), (not_found, accounts_deferring))))

controller_manager_waits_example :
    KubeControllerManager.reconcile open_memory req split_cluster
    ≡ (ok (requeue_after 3), split_cluster)
controller_manager_waits_example =
    controller_manager.controller_manager_waits open_memory req kcm split_cluster kcm_found
      (inr (inl (secret-IsMissing (beside req "service-accounts"))))

controller_manager_deploys_example :
    ((KubeControllerManager.reconcile open_memory req full_cluster).0 ≡ ok done)
    × controller_manager.IsDeployed open_memory req kcm
        (1 ∷ 3 ∷ 2 ∷ [])
        (KubeControllerManager.reconcile open_memory req full_cluster).1
controller_manager_deploys_example =
    controller_manager.controller_manager_deploys open_memory lawful req kcm
      (issued "kube-controller-manager") (1 ∷ 3 ∷ 2 ∷ []) (generated "kube-controller-manager" _)
      open_memory-IsHealthy full_cluster (issued "service-accounts") (issued "ca") kcm_full
      controller_manager_found accounts_found ca_found

controller_manager-SourcesExist_example :
    SourcesExist open_memory req
      (KubeControllerManager.deployment_spec kcm).template.spec.volumes
      (KubeControllerManager.reconcile open_memory req full_cluster).1
controller_manager-SourcesExist_example =
    controller_manager-SourcesExist open_memory lawful req kcm full_cluster kcm_full refl refl (
      (controller_manager.controller_manager_deploys open_memory lawful req kcm
        (issued "kube-controller-manager") (1 ∷ 3 ∷ 2 ∷ []) (generated "kube-controller-manager" _)
        open_memory-IsHealthy full_cluster (issued "service-accounts") (issued "ca") kcm_full
        controller_manager_found accounts_found ca_found).0)

deployment_spec-ignores_names_example :
    Mounts (KubeControllerManager.deployment_spec kcm).template.spec.volumes "ca"
    × ((name : String)
        → name ≢ "ca"
        → name ≢ "kube-controller-manager-kubeconfig"
        → name ≢ "kube-controller-manager"
        → name ≢ "service-accounts"
        → ¬ Mounts (KubeControllerManager.deployment_spec kcm).template.spec.volumes name)
deployment_spec-ignores_names_example = deployment_spec-ignores_names kcm

scheduler_deploys_example :
    ((KubeScheduler.reconcile open_memory req full_cluster).0 ≡ ok done)
    × scheduler.IsDeployed open_memory req ks
        (0 ∷ [])
        (1 ∷ 3 ∷ 2 ∷ [])
        (KubeScheduler.reconcile open_memory req full_cluster).1
scheduler_deploys_example =
    scheduler.scheduler_deploys open_memory lawful req ks (issued "kube-scheduler") (0 ∷ [])
      (1 ∷ 3 ∷ 2 ∷ []) refl (generated "kube-scheduler" _) open_memory-IsHealthy full_cluster
      ks_full scheduler_found

scheduler-SourcesExist_example :
    SourcesExist open_memory req
      (KubeScheduler.deployment_spec ks).template.spec.volumes
      (KubeScheduler.reconcile open_memory req full_cluster).1
scheduler-SourcesExist_example =
    scheduler-SourcesExist open_memory lawful req ks full_cluster ks_full (
      (scheduler.scheduler_deploys open_memory lawful req ks (issued "kube-scheduler") (0 ∷ [])
        (1 ∷ 3 ∷ 2 ∷ []) refl (generated "kube-scheduler" _) open_memory-IsHealthy full_cluster
        ks_full scheduler_found).0)

deployments-IsAcceptable_example :
    IsAcceptable (generate_deployment kas).spec
    × IsAcceptable (KubeControllerManager.deployment_spec kcm)
    × IsAcceptable (KubeScheduler.deployment_spec ks)
deployments-IsAcceptable_example = deployments-IsAcceptable kas kcm ks

api_server_kept_example :
    open_memory.get Kind.pki req (KubeApiServer.reconcile open_memory req full_cluster).1
    ≡ open_memory.get Kind.pki req full_cluster
api_server_kept_example =
    api_server.api_server_kept open_memory lawful req kas full_cluster kas_full Kind.pki req
      (λ h. cc (h.0)) (λ h. cc (h.0)) (λ h. cc (h.0))

controller_manager_kept_example :
    open_memory.get Kind.pki req (KubeControllerManager.reconcile open_memory req full_cluster).1
    ≡ open_memory.get Kind.pki req full_cluster
controller_manager_kept_example =
    controller_manager.controller_manager_kept open_memory lawful req kcm full_cluster kcm_full
      Kind.pki req (λ h. cc (h.0)) (λ h. cc (h.0))

scheduler_kept_example :
    open_memory.get Kind.pki req (KubeScheduler.reconcile open_memory req full_cluster).1
    ≡ open_memory.get Kind.pki req full_cluster
scheduler_kept_example =
    scheduler.scheduler_kept open_memory lawful req ks full_cluster ks_full Kind.pki req
      (λ h. cc (h.0)) (λ h. cc (h.0))
