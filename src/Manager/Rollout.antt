-- ===== src/Manager/Rollout.antt =====
-- The three components' controllers, on tables: what each waits for, and that it deploys then.
use kubeception_operator.Base.{◌≡◌, refl, sym, ap, ◌∙◌, subst, some, List, [], ◌∷◌}
use kubeception_operator.Types.Meta.{Key}
use kubeception_operator.Types.Core.{Bytes}
use kubeception_operator.Types.Crd.{KubeApiServer, KubeControllerManager, KubeScheduler}
use kubeception_operator.Types.Kinds.{Kind, Obj}
use kubeception_operator.Platform.Memory.{Table}
use kubeception_operator.Platform.Interface.{Kubeconfig, SchedulerConfiguration}
use kubeception_operator.Platform.Fetch.{Ending, done}
use kubeception_operator.Platform.View.{Plan, on_object, on_secret, write, execute}
use kubeception_operator.Platform.Advances.{
  Holds, Advances, Advances-trans, write-Holds, execute-Advances, on_object-Advances,
  on_secret-Advances, waiting-Advances, AllHeld, AllHeld-Advances, waiting-AllHeld,
}
use kubeception_operator.Platform.Settled.{waiting}
use kubeception_operator.Utils.{beside, kubeconfig_of, service_url}
use kubeception_operator.KubeApiServer
use kubeception_operator.KubeApiServer.Deployment.{generate_deployment}
use kubeception_operator.KubeApiServer.Plan as api_server_plan
use kubeception_operator.KubeApiServer.Settles as api_server
use kubeception_operator.KubeControllerManager
use kubeception_operator.KubeControllerManager.Plan as controller_manager_plan
use kubeception_operator.KubeControllerManager.Settles as controller_manager
use kubeception_operator.KubeScheduler
use kubeception_operator.KubeScheduler.Plan as scheduler_plan
use kubeception_operator.KubeScheduler.Settles as scheduler

-- The run has ended, and the Deployment is there.
abbrev pub Deploys : Ending × Table → Key → Type 0
Deploys y key = (y.0 ≡ done) × Holds y.1 Kind.deployment key

-- The Secrets that each component names.
module _ (req : Key) where
  abbrev pub scheduler_secrets : KubeScheduler → List Key
  scheduler_secrets ks = beside req ks.spec.kube_scheduler_tls ∷ []

  abbrev pub controller_manager_secrets : KubeControllerManager → List Key
  controller_manager_secrets kcm =
      beside req kcm.spec.tls.kube_controller_manager
      ∷ beside req kcm.spec.tls.service_accounts_tls
      ∷ beside req kcm.spec.tls.ca
      ∷ []

  abbrev pub api_server_secrets : KubeApiServer → List Key
  api_server_secrets kas =
      beside req kas.spec.tls.konnectivity_secret_name
      ∷ beside req kas.spec.tls.ca_secret_name
      ∷ beside req kas.spec.tls.kube_api_server_secret_name
      ∷ beside req kas.spec.tls.service_accounts_secret_name
      ∷ []

module _ (encode : Kubeconfig → Bytes) (encode_json : SchedulerConfiguration → Bytes)
    (req : Key) where
  pub scheduler-Advances : (t : Table) → Advances t (scheduler_plan.plan encode encode_json req t).1
  unfolding scheduler_plan.plan kubeconfig_of service_url KubeScheduler.deployment_spec
  scheduler-Advances t =
      on_object-Advances (t Kind.kube_scheduler req) (scheduler.deploy encode encode_json req) t
        λ ks.
          on_secret-Advances (t Kind.secret (beside req ks.spec.kube_scheduler_tls))
            (λ tls t. (done, execute (scheduler.writes encode encode_json req ks tls) t)) t
            λ tls.
              execute-Advances (scheduler.writes encode encode_json req ks tls) t (tt, (tt, tt))

  -- The scheduler and its certificate's Secret are there.
  abbrev pub SchedulerReady : Key → Table → Type 0
  SchedulerReady key t =
      (ks : KubeScheduler) × (t Kind.kube_scheduler req ≡ some ks)
      × (key ≡ beside req "kube-scheduler")
      × AllHeld t (scheduler_secrets req ks)

  pub scheduler-Deploys :
      (key : Key) (t : Table)
      → SchedulerReady key t
      → Deploys (scheduler_plan.plan encode encode_json req t) key
  unfolding scheduler_plan.plan kubeconfig_of service_url KubeScheduler.deployment_spec execute
  scheduler-Deploys key t (ks, found, is_key, ((tls, tls_found), _)) =
      let finish : Obj Kind.secret → Plan =
        λ tls t. (done, execute (scheduler.writes encode encode_json req ks tls) t) in
      let computed =
        ap (λ r. on_object r (scheduler.deploy encode encode_json req) t) found
        ∙ ap (λ r. on_secret r finish t) tls_found in
      subst (λ y. Deploys y key) (sym computed)
        (
          refl,
          subst (Holds (finish tls t).1 Kind.deployment) (sym is_key) (
              write-Holds (scheduler_plan.deployment_write encode encode_json req ks)
                (write (scheduler_plan.config_write encode encode_json req ks tls) t)),
        )

module _ (encode : Kubeconfig → Bytes) (req : Key) where
  pub controller_manager-Advances :
      (t : Table) → Advances t (controller_manager_plan.plan encode req t).1
  unfolding controller_manager_plan.plan kubeconfig_of service_url
      KubeControllerManager.deployment_spec
  controller_manager-Advances t =
      on_object-Advances (t Kind.kube_controller_manager req) (controller_manager.deploy encode req)
        t
        λ kcm.
          on_secret-Advances (t Kind.secret (beside req kcm.spec.tls.kube_controller_manager))
            (λ tls.
              waiting (controller_manager.others encode req kcm)
                (controller_manager.finish encode req kcm tls))
            t
            λ tls.
              waiting-Advances (controller_manager.others encode req kcm)
                (controller_manager.finish encode req kcm tls) t
                (execute-Advances (controller_manager.writes encode req kcm tls) t (tt, (tt, tt)))

  -- The controller manager and the three Secrets that it names are there.
  abbrev pub ControllerManagerReady : Key → Table → Type 0
  ControllerManagerReady key t =
      (kcm : KubeControllerManager) × (t Kind.kube_controller_manager req ≡ some kcm)
      × (key ≡ beside req "kube-controller-manager")
      × AllHeld t (controller_manager_secrets req kcm)

  pub controller_manager-Deploys :
      (key : Key) (t : Table)
      → ControllerManagerReady key t
      → Deploys (controller_manager_plan.plan encode req t) key
  unfolding controller_manager_plan.plan kubeconfig_of service_url
      KubeControllerManager.deployment_spec execute
  controller_manager-Deploys key t (kcm, found, is_key, ((tls, tls_found), others_held)) =
      let others = controller_manager.others encode req kcm in
      let finish : Obj Kind.secret → Plan = controller_manager.finish encode req kcm in
      let computed =
        ap (λ r. on_object r (controller_manager.deploy encode req) t) found
        ∙ ap (λ r. on_secret r (λ tls. waiting others (finish tls)) t) tls_found
        ∙ waiting-AllHeld others (finish tls) t others_held in
      subst (λ y. Deploys y key) (sym computed)
        (
          refl,
          subst (Holds (finish tls t).1 Kind.deployment) (sym is_key) (
              write-Holds (controller_manager_plan.deployment_write encode req kcm)
                (write (controller_manager_plan.kubeconfig_write encode req kcm tls) t)),
        )

  pub api_server-Advances : (t : Table) → Advances t (api_server_plan.plan encode req t).1
  unfolding api_server_plan.plan kubeconfig_of KubeApiServer.egress generate_deployment execute
  api_server-Advances t =
      on_object-Advances (t Kind.kube_api_server req) (api_server.deploy encode req) t λ kas.
        on_secret-Advances (t Kind.secret (beside req kas.spec.tls.konnectivity_secret_name))
          (api_server.begin encode req kas) t
          λ tls.
            Advances-trans (execute-Advances (api_server.first encode req kas tls) t (tt, (tt, tt)))
              (waiting-Advances (api_server.needed encode req kas)
                (api_server.finish encode req kas) (execute (api_server.first encode req kas tls) t)
                (execute-Advances (api_server.last encode req kas)
                  (execute (api_server.first encode req kas tls) t) (tt, tt)))

  -- The API server and the four Secrets that it names are there.
  abbrev pub ApiServerReady : Key → Table → Type 0
  ApiServerReady key t =
      (kas : KubeApiServer) × (t Kind.kube_api_server req ≡ some kas)
      × (key ≡ beside req kas.spec.deployment.name)
      × AllHeld t (api_server_secrets req kas)

  pub api_server-Deploys :
      (key : Key) (t : Table)
      → ApiServerReady key t
      → Deploys (api_server_plan.plan encode req t) key
  unfolding api_server_plan.plan kubeconfig_of KubeApiServer.egress generate_deployment execute
  api_server-Deploys key t (kas, found, is_key, ((tls, tls_found), needed_held)) =
      let needed = api_server.needed encode req kas in
      let t1 = execute (api_server.first encode req kas tls) t in
      let computed =
        ap (λ r. on_object r (api_server.deploy encode req) t) found
        ∙ ap (λ r. on_secret r (api_server.begin encode req kas) t) tls_found
        ∙ waiting-AllHeld needed (api_server.finish encode req kas) t1 (
            AllHeld-Advances needed t t1
              (execute-Advances (api_server.first encode req kas tls) t (tt, (tt, tt)))
              needed_held) in
      subst (λ y. Deploys y key) (sym computed)
        (
          refl,
          subst (Holds (api_server.finish encode req kas t1).1 Kind.deployment) (sym is_key)
              (write-Holds (api_server_plan.deployment_write encode req kas) t1),
        )
