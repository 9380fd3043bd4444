-- ===== src/Cluster/Safety.antt =====
-- What holds in every reachable state of the cluster.
use kubeception_operator.Base.{arith}
use kubeception_operator.Types.Meta.{Key}
use kubeception_operator.Types.Kinds.{Kind}
use kubeception_operator.Types.Kinds.Zero.{fresh}
use kubeception_operator.Platform.Interface.{Platform, IsLawful}
use kubeception_operator.Platform.Fetch.{done}
use kubeception_operator.Utils.{beside, kubeconfig_name}
use kubeception_operator.KubeApiServer.Deployment.{generate_deployment}
use kubeception_operator.KubeApiServer
use kubeception_operator.KubeControllerManager
use kubeception_operator.KubeScheduler
use kubeception_operator.Manager.{Controller, run}
use kubeception_operator.Cluster.{IsConventional, Step, Reach}
use kubeception_operator.Cluster.Grown.{control_plane-Grown, load_balancer-Grown, pki-Grown}
use kubeception_operator.Cluster.Mounts.{
  AllMounted, Grows-AllMounted, with_object-AllMounted, with_secret-AllMounted, write-AllMounted,
  deploy-AllMounted,
}

module _ (P : Platform) (L : IsLawful P) (req : Key) (s : P.State) (all : AllMounted P s) where
  open P use {State, Error, get}

  scheduler-AllMounted : AllMounted P (KubeScheduler.reconcile P req s).1
  unfolding KubeScheduler.reconcile KubeScheduler.sync KubeScheduler.mutate_deployment
      KubeScheduler.deployment_spec
  scheduler-AllMounted = with_object-AllMounted P Kind.kube_scheduler req _ s all λ ks _.
      with_secret-AllMounted P (beside req ks.spec.kube_scheduler_tls) _ s all λ tls found.
        write-AllMounted P L Kind.kube_scheduler ks.meta Kind.secret
          (fresh Kind.secret req.namespace "kube-scheduler-config")
          (KubeScheduler.mutate_config P ks tls) _ s (λ e. cc e) all
          λ _ s1 all1 config grows.
            deploy-AllMounted P L Kind.kube_scheduler ks.meta
              (fresh Kind.deployment req.namespace "kube-scheduler")
              (KubeScheduler.mutate_deployment ks) (KubeScheduler.deployment_spec ks) done s1
              (λ b m made. ground (arith, made)) all1
              (config, (grows Kind.secret _ (tls, found), tt))

  controller_manager-AllMounted :
      IsConventional P Controller.kube_controller_manager req s
      → AllMounted P (KubeControllerManager.reconcile P req s).1
  unfolding KubeControllerManager.reconcile KubeControllerManager.sync
      KubeControllerManager.mutate_deployment KubeControllerManager.deployment_spec
  controller_manager-AllMounted conventional =
      with_object-AllMounted P Kind.kube_controller_manager req _ s all λ kcm kcm_found.
        with_secret-AllMounted P (beside req kcm.spec.tls.kube_controller_manager) _ s all
          λ tls found.
            with_secret-AllMounted P (beside req kcm.spec.tls.service_accounts_tls) _ s all
              λ accounts accounts_found.
                with_secret-AllMounted P (beside req kcm.spec.tls.ca) _ s all λ ca ca_found.
                  write-AllMounted P L Kind.kube_controller_manager kcm.meta Kind.secret
                    (fresh Kind.secret req.namespace "kube-controller-manager-kubeconfig")
                    (KubeControllerManager.mutate_kubeconfig P kcm tls) _ s (λ e. cc e) all
                    λ _ s1 all1 config grows.
                      let (tls_name, accounts_name) = conventional kcm kcm_found in
                      deploy-AllMounted P L Kind.kube_controller_manager kcm.meta
                        (fresh Kind.deployment req.namespace "kube-controller-manager")
                        (KubeControllerManager.mutate_deployment kcm)
                        (KubeControllerManager.deployment_spec kcm) done s1
                        (λ b m made. ground (arith, made)) all1
                        (
                          config,
                          (
                            grows Kind.secret _ (tls, rw (← tls_name) found),
                            (
                              grows Kind.secret _ (accounts, rw (← accounts_name) accounts_found),
                              (grows Kind.secret _ (ca, ca_found), tt),
                            ),
                          ),
                        )

  api_server-AllMounted : AllMounted P (KubeApiServer.reconcile P req s).1
  unfolding KubeApiServer.reconcile KubeApiServer.sync KubeApiServer.deploy
      KubeApiServer.mutate_deployment generate_deployment
  api_server-AllMounted = with_object-AllMounted P Kind.kube_api_server req _ s all λ kas _.
      with_secret-AllMounted P (beside req kas.spec.tls.konnectivity_secret_name) _ s all λ tls _.
        write-AllMounted P L Kind.kube_api_server kas.meta Kind.secret
          (fresh Kind.secret req.namespace (kubeconfig_name kas.spec.tls.konnectivity_secret_name))
          (KubeApiServer.mutate_kubeconfig P tls) _ s (λ e. cc e) all
          λ _ s1 all1 kubeconfig _.
            write-AllMounted P L Kind.kube_api_server kas.meta Kind.config_map
              (fresh Kind.config_map req.namespace "konnectivity-egress")
              KubeApiServer.mutate_egress _ s1 (λ e. cc e) all1
              λ _ s2 all2 egress grows.
                with_secret-AllMounted P (beside req kas.spec.tls.ca_secret_name) _ s2 all2
                  λ ca ca_found.
                    with_secret-AllMounted P (beside req kas.spec.tls.kube_api_server_secret_name) _
                      s2 all2
                      λ cert cert_found.
                        with_secret-AllMounted P
                          (beside req kas.spec.tls.service_accounts_secret_name) _ s2 all2
                          λ accounts accounts_found.
                            deploy-AllMounted P L Kind.kube_api_server kas.meta
                              (fresh Kind.deployment req.namespace kas.spec.deployment.name)
                              (KubeApiServer.mutate_deployment kas) (generate_deployment kas).spec
                              done s2 (λ b m made. ground (arith, made)) all2
                              (
                                (ca, ca_found),
                                (
                                  (accounts, accounts_found),
                                  (
                                    (cert, cert_found),
                                    (egress, (grows Kind.secret _ kubeconfig, (tt, tt))),
                                  ),
                                ),
                              )

  -- One run of any controller, however it ends.
  run-AllMounted : (c : Controller) → IsConventional P c req s → AllMounted P (run P c req s).1
  unfolding run
  run-AllMounted Controller.control_plane _ =
      Grows-AllMounted P s _ ((control_plane-Grown P L req).grows s) all
  run-AllMounted Controller.pki _ = Grows-AllMounted P s _ ((pki-Grown P L req).grows s) all
  run-AllMounted Controller.kube_controller_manager conventional =
      controller_manager-AllMounted conventional
  run-AllMounted Controller.kube_api_server _ = api_server-AllMounted
  run-AllMounted Controller.kube_scheduler _ = scheduler-AllMounted
  run-AllMounted Controller.loadbalancer _ =
      Grows-AllMounted P s _ ((load_balancer-Grown P L req).grows s) all

module _ (P : Platform) (L : IsLawful P) where
  Step-AllMounted : {s t : P.State} → Step P s t → AllMounted P s → AllMounted P t
  Step-AllMounted {s} (Step.run_of c req conventional) all =
      run-AllMounted P L req s all c conventional
  Step-AllMounted {s} {t} (Step.elsewhere grows) all = Grows-AllMounted P s t grows all

  -- In every state that can be reached from one where each Deployment's Secrets and ConfigMaps are
  -- there, by runs of the six controllers in any order, on any requests and with any errors, and by
  -- others who delete nothing and touch no Deployment, they are there as well. The controller
  -- managers must name two of their Secrets as the Deployment mounts them.
  pub Reach-AllMounted : {s t : P.State} → AllMounted P s → Reach P s t → AllMounted P t
  Reach-AllMounted all Reach.start = all
  Reach-AllMounted all (Reach.later r step) = Step-AllMounted step (Reach-AllMounted all r)
