-- ===== src/KubeScheduler/Settles.antt =====
-- A second run of the scheduler's controller.
use kubeception_operator.Base.{◌≡◌, ◌≢◌, refl, sym, some, ap, List, [], ◌∷◌}
use kubeception_operator.Types.Meta.{Key}
use kubeception_operator.Types.Core.{Bytes}
use kubeception_operator.Types.Crd.{KubeScheduler}
use kubeception_operator.Types.Kinds.{Kind, Obj}
use kubeception_operator.Platform.Interface.{Kubeconfig, SchedulerConfiguration}
use kubeception_operator.Platform.Memory.{Table}
use kubeception_operator.Platform.Fetch.{done}
use kubeception_operator.Platform.View.{Plan, Write, on_secret, execute}
use kubeception_operator.Platform.Settled.{
  Repeats, on_object-Repeats, on_secret-Repeats, on_secret-others, execute-Repeats, execute-others,
}
use kubeception_operator.Utils.{beside, kubeconfig_of, service_url}
use kubeception_operator.KubeScheduler.{deployment_spec}
use kubeception_operator.KubeScheduler.Plan.{plan, config_write, deployment_write}

-- The certificate's Secret is not the one that the controller writes.
abbrev pub Apart : Key → Table → Type 0
Apart req t =
    (ks : KubeScheduler)
    → t Kind.kube_scheduler req ≡ some ks
    → ks.spec.kube_scheduler_tls ≢ "kube-scheduler-config"

module _ (encode : Kubeconfig → Bytes) (encode_json : SchedulerConfiguration → Bytes)
    (req : Key) where
  abbrev pub writes : KubeScheduler → Obj Kind.secret → List Write
  writes ks tls =
      config_write encode encode_json req ks tls ∷ deployment_write encode encode_json req ks ∷ []

  abbrev pub deploy : KubeScheduler → Plan
  deploy ks t =
      on_secret (t Kind.secret (beside req ks.spec.kube_scheduler_tls))
        (λ tls t. (done, execute (writes ks tls) t)) t

  pub plan-Repeats : (t : Table) → Apart req t → Repeats (plan encode encode_json req) t
  unfolding plan kubeconfig_of service_url deployment_spec
  plan-Repeats t apart = on_object-Repeats {k = Kind.kube_scheduler} req deploy t λ ks found.
      let tls_key = beside req ks.spec.kube_scheduler_tls in
      (
        on_secret-others tls_key (λ tls t. (done, execute (writes ks tls) t)) t Kind.kube_scheduler
            req
            (λ tls.
              execute-others (writes ks tls) t Kind.kube_scheduler req
                ((λ h. cc (h.0)), ((λ h. cc (h.0)), tt))),
        on_secret-Repeats tls_key (λ tls t. (done, execute (writes ks tls) t)) t
            λ tls _. (
              execute-others (writes ks tls) t Kind.secret tls_key
                  ((λ h. apart ks found (sym (ap (λ k. k.name) (h.1)))), ((λ h. cc (h.0)), tt)),
              execute-Repeats done (writes ks tls) t (((λ h. cc (h.0)), tt), (tt, tt))
                  ((λ o. refl), ((λ o. refl), tt)),
            ),
      )
