-- ===== src/KubeApiServer/Settles.antt =====
-- A second run of the API server's controller.
use kubeception_operator.Base.{◌≡◌, ◌≢◌, refl, sym, ap, List, [], ◌∷◌, ◌∙◌}
use kubeception_operator.Types.Meta.{Key}
use kubeception_operator.Types.Core.{Bytes}
use kubeception_operator.Types.Crd.{KubeApiServer}
use kubeception_operator.Types.Kinds.{Kind, Obj}
use kubeception_operator.Platform.Interface.{Kubeconfig}
use kubeception_operator.Platform.Memory.{Table}
use kubeception_operator.Platform.Fetch.{done}
use kubeception_operator.Platform.View.{Plan, Write, on_secret, execute}
use kubeception_operator.Platform.Settled.{
  Repeats, on_object-Repeats, on_secret-Repeats, on_secret-others, execute-Repeats, execute-others,
  first-Repeats, waiting, waiting-others, waiting-Repeats,
}
use kubeception_operator.Utils.{beside, kubeconfig_of}
use kubeception_operator.Utils.Names.{ne-kubeconfig_name}
use kubeception_operator.KubeApiServer.{egress}
use kubeception_operator.KubeApiServer.Deployment.{generate_deployment}
use kubeception_operator.KubeApiServer.Plan.{plan, kubeconfig_write, egress_write, deployment_write}

module _ (encode : Kubeconfig → Bytes) (req : Key) where
  abbrev pub first : KubeApiServer → Obj Kind.secret → List Write
  first kas tls = kubeconfig_write encode req kas tls ∷ egress_write encode req kas ∷ []

  abbrev pub last : KubeApiServer → List Write
  last kas = deployment_write encode req kas ∷ []

  -- The three Secrets that only the Deployment needs.
  abbrev pub needed : KubeApiServer → List Key
  needed kas =
      beside req kas.spec.tls.ca_secret_name
      ∷ beside req kas.spec.tls.kube_api_server_secret_name
      ∷ beside req kas.spec.tls.service_accounts_secret_name
      ∷ []

  abbrev pub finish : KubeApiServer → Plan
  finish kas t = (done, execute (last kas) t)

  abbrev pub begin : KubeApiServer → Obj Kind.secret → Plan
  begin kas tls t = waiting (needed kas) (finish kas) (execute (first kas tls) t)

  abbrev pub deploy : KubeApiServer → Plan
  deploy kas t =
      on_secret (t Kind.secret (beside req kas.spec.tls.konnectivity_secret_name)) (begin kas) t

  -- The last part writes Deployments alone.
  finish_kept :
      (kas : KubeApiServer) (t : Table) (k : Kind) (key : Key)
      → Kind.deployment ≢ k
      → (waiting (needed kas) (finish kas) t).1 k key ≡ t k key
  finish_kept kas t k key differ =
      waiting-others (needed kas) (finish kas) t k key
        (execute-others (last kas) t k key ((λ h. differ (h.0)), tt))

  begin-Repeats :
      (kas : KubeApiServer) (tls : Obj Kind.secret) (t : Table) → Repeats (begin kas tls) t
  begin-Repeats kas tls t =
      let t1 = execute (first kas tls) t in
      let spared : (key : Key) → (finish kas t1).1 Kind.secret key ≡ t1 Kind.secret key =
        λ key. execute-others (last kas) t1 Kind.secret key ((λ h. cc (h.0)), tt) in
      first-Repeats (first kas tls) (waiting (needed kas) (finish kas)) t
        (((λ h. cc (h.0)), tt), (tt, tt)) ((λ o. refl), ((λ o. refl), tt))
        (
          finish_kept kas t1 Kind.secret _ (λ e. cc e),
          (finish_kept kas t1 Kind.config_map _ (λ e. cc e), tt),
        )
        (waiting-Repeats (needed kas) (finish kas) t1 (spared _, (spared _, (spared _, tt)))
          (execute-Repeats done (last kas) t1 (tt, tt) ((λ o. refl), tt)))

  pub plan-Repeats : (t : Table) → Repeats (plan encode req) t
  unfolding plan kubeconfig_of egress generate_deployment execute
  plan-Repeats t = on_object-Repeats {k = Kind.kube_api_server} req deploy t λ kas _.
      let tls_key = beside req kas.spec.tls.konnectivity_secret_name in
      (
        on_secret-others tls_key (begin kas) t Kind.kube_api_server req (λ tls.
            finish_kept kas (execute (first kas tls) t) Kind.kube_api_server req (λ e. cc e)
            ∙ execute-others (first kas tls) t Kind.kube_api_server req
                ((λ h. cc (h.0)), ((λ h. cc (h.0)), tt))),
        on_secret-Repeats tls_key (begin kas) t λ tls _. (
          finish_kept kas (execute (first kas tls) t) Kind.secret tls_key (λ e. cc e)
              ∙ execute-others (first kas tls) t Kind.secret tls_key (
                (λ h.
                    ne-kubeconfig_name kas.spec.tls.konnectivity_secret_name
                      (sym (ap (λ k. k.name) (h.1)))),
                ((λ h. cc (h.0)), tt),
              ),
          begin-Repeats kas tls t,
        ),
      )
