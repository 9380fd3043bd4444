-- ===== src/KubeControllerManager/Settles.antt =====
-- A second run of the controller manager's controller.
use kubeception_operator.Base.{String, ◌≡◌, ◌≢◌, refl, sym, some, ap, List, [], ◌∷◌}
use kubeception_operator.Types.Meta.{Key}
use kubeception_operator.Types.Core.{Bytes}
use kubeception_operator.Types.Crd.{KubeControllerManager}
use kubeception_operator.Types.Kinds.{Kind, Obj}
use kubeception_operator.Platform.Interface.{Kubeconfig}
use kubeception_operator.Platform.Memory.{Table}
use kubeception_operator.Platform.Fetch.{done}
use kubeception_operator.Platform.View.{Plan, Write, on_secret, execute}
use kubeception_operator.Platform.Settled.{
  Repeats, on_object-Repeats, on_secret-Repeats, on_secret-others, execute-Repeats, execute-others,
  waiting, waiting-others, waiting-Repeats,
}
use kubeception_operator.Utils.{beside, kubeconfig_of, service_url}
use kubeception_operator.KubeControllerManager.{deployment_spec}
use kubeception_operator.KubeControllerManager.Plan.{plan, kubeconfig_write, deployment_write}

-- None of the three Secrets that a run waits for is the one that it writes.
abbrev pub Apart : Key → Table → Type 0
Apart req t =
    (kcm : KubeControllerManager)
    → t Kind.kube_controller_manager req ≡ some kcm
    → (kcm.spec.tls.kube_controller_manager ≢ "kube-controller-manager-kubeconfig")
      × (kcm.spec.tls.service_accounts_tls ≢ "kube-controller-manager-kubeconfig")
      × (kcm.spec.tls.ca ≢ "kube-controller-manager-kubeconfig")

module _ (encode : Kubeconfig → Bytes) (req : Key) where
  abbrev pub writes : KubeControllerManager → Obj Kind.secret → List Write
  writes kcm tls = kubeconfig_write encode req kcm tls ∷ deployment_write encode req kcm ∷ []

  -- The two Secrets whose contents are not read.
  abbrev pub others : KubeControllerManager → List Key
  others kcm = beside req kcm.spec.tls.service_accounts_tls ∷ beside req kcm.spec.tls.ca ∷ []

  abbrev pub finish : KubeControllerManager → Obj Kind.secret → Plan
  finish kcm tls t = (done, execute (writes kcm tls) t)

  abbrev pub deploy : KubeControllerManager → Plan
  deploy kcm t =
      on_secret (t Kind.secret (beside req kcm.spec.tls.kube_controller_manager))
        (λ tls. waiting (others kcm) (finish kcm tls)) t

  -- A Secret of another name is kept.
  secret_kept :
      (kcm : KubeControllerManager) (tls : Obj Kind.secret) (t : Table) (name : String)
      → name ≢ "kube-controller-manager-kubeconfig"
      → (finish kcm tls t).1 Kind.secret (beside req name) ≡ t Kind.secret (beside req name)
  secret_kept kcm tls t name differ =
      execute-others (writes kcm tls) t Kind.secret (beside req name)
        ((λ h. differ (sym (ap (λ k. k.name) (h.1)))), ((λ h. cc (h.0)), tt))

  pub plan-Repeats : (t : Table) → Apart req t → Repeats (plan encode req) t
  unfolding plan kubeconfig_of service_url deployment_spec
  plan-Repeats t apart =
      on_object-Repeats {k = Kind.kube_controller_manager} req deploy t λ kcm found.
        let tls_key = beside req kcm.spec.tls.kube_controller_manager in
        let (tls_apart, accounts_apart, ca_apart) = apart kcm found in
        (
          on_secret-others tls_key (λ tls. waiting (others kcm) (finish kcm tls)) t
              Kind.kube_controller_manager req
              (λ tls.
                waiting-others (others kcm) (finish kcm tls) t Kind.kube_controller_manager req (
                  execute-others (writes kcm tls) t Kind.kube_controller_manager req
                    ((λ h. cc (h.0)), ((λ h. cc (h.0)), tt)))),
          on_secret-Repeats tls_key (λ tls. waiting (others kcm) (finish kcm tls)) t
              λ tls _. (
                waiting-others (others kcm) (finish kcm tls) t Kind.secret tls_key
                    (secret_kept kcm tls t _ tls_apart),
                waiting-Repeats (others kcm) (finish kcm tls) t
                    (secret_kept kcm tls t _ accounts_apart, (secret_kept kcm tls t _ ca_apart, tt))
                    (execute-Repeats done (writes kcm tls) t (((λ h. cc (h.0)), tt), (tt, tt))
                      ((λ o. refl), ((λ o. refl), tt))),
              ),
        )
