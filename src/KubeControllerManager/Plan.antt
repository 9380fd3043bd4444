-- ===== src/KubeControllerManager/Plan.antt =====
-- What the controller manager's reconciler promises, as a change of a table of objects.
use kubeception_operator.Base.{refl, [], ◌∷◌}
use kubeception_operator.Types.Meta.{Key}
use kubeception_operator.Types.Crd.{KubeControllerManager}
use kubeception_operator.Types.Core.{Bytes}
use kubeception_operator.Types.Kinds.{Kind, Obj}
use kubeception_operator.Types.Kinds.Zero.{fresh}
use kubeception_operator.Platform.Interface.{Kubeconfig, Platform, IsLawful, IsHealthy}
use kubeception_operator.Platform.Owned.{controlled}
use kubeception_operator.Platform.Fetch.{done}
use kubeception_operator.Platform.View.{
  Write, execute, Plan, on_object, on_secret, view, Encodes, Implements, Implements-pure,
  Implements-write, Implements-with_object, Implements-with_secret,
}
use kubeception_operator.Utils.{
  beside, kubeconfig_of, kubeconfig_data, generate_kubeconfig, service_url,
}
use kubeception_operator.KubeControllerManager.{
  own_labels, deployment_spec, mutate_kubeconfig, mutate_deployment, sync, reconcile,
}

module _ (encode : Kubeconfig → Bytes) (req : Key) (kcm : KubeControllerManager) where
  abbrev pub kubeconfig_write : Obj Kind.secret → Write
  kubeconfig_write tls = record {
    kind = Kind.secret;
    initial =
        controlled Kind.kube_controller_manager kcm.meta Kind.secret
          (fresh Kind.secret req.namespace "kube-controller-manager-kubeconfig");
    change = λ o. record o {
      spec =
          kubeconfig_data
            (encode (kubeconfig_of tls.spec (service_url kcm.spec.kube_api_server_service)));
    };
  }

  abbrev pub deployment_write : Write
  deployment_write = record {
    kind = Kind.deployment;
    initial =
        controlled Kind.kube_controller_manager kcm.meta Kind.deployment
          (fresh Kind.deployment req.namespace "kube-controller-manager");
    change = λ o. record o {
      meta = record o.meta { labels = own_labels kcm };
      spec = deployment_spec kcm;
    };
  }

-- With the three Secrets there, the kubeconfig and the Deployment are kept.
unfoldable pub plan : (Kubeconfig → Bytes) → Key → Plan
unfolding kubeconfig_of service_url deployment_spec
plan encode req t =
    on_object (t Kind.kube_controller_manager req)
      (λ kcm t.
        on_secret (t Kind.secret (beside req kcm.spec.tls.kube_controller_manager))
          (λ tls t.
            on_secret (t Kind.secret (beside req kcm.spec.tls.service_accounts_tls))
              (λ _ t.
                on_secret (t Kind.secret (beside req kcm.spec.tls.ca))
                  (λ _ t. (
                    done,
                    execute
                        (kubeconfig_write encode req kcm tls ∷ deployment_write encode req kcm ∷ [])
                        t,
                  ))
                  t)
              t)
          t)
      t

module _ (P : Platform) (L : IsLawful P) (H : IsHealthy P) (E : Encodes P) (req : Key) where
  sync-Implements :
      (kcm : KubeControllerManager) (tls : Obj Kind.secret) (s : P.State)
      → Implements P (sync P req kcm tls s) (
        done,
        execute
            (kubeconfig_write E.encode req kcm tls ∷ deployment_write E.encode req kcm ∷ [])
            (view P s),
      )
  unfolding sync execute mutate_kubeconfig mutate_deployment generate_kubeconfig
  sync-Implements kcm tls s =
      Implements-write P L H Kind.kube_controller_manager kcm.meta Kind.secret
        (fresh Kind.secret req.namespace "kube-controller-manager-kubeconfig")
        (mutate_kubeconfig P kcm tls) (kubeconfig_write E.encode req kcm tls).change
        (λ b. rw (E.kubeconfigs _) refl) (λ _. refl)
        (λ t. (done, execute (deployment_write E.encode req kcm ∷ []) t)) _ s
        λ s1.
          Implements-write P L H Kind.kube_controller_manager kcm.meta Kind.deployment
            (fresh Kind.deployment req.namespace "kube-controller-manager") (mutate_deployment kcm)
            (deployment_write E.encode req kcm).change (λ b. refl) (λ _. refl) (λ t. (done, t)) _ s1
            λ s2. Implements-pure P done s2

  -- The reconciler implements the plan, whatever the state.
  pub reconcile-Implements :
      (s : P.State) → Implements P (reconcile P req s) (plan E.encode req (view P s))
  unfolding reconcile plan
  reconcile-Implements s = Implements-with_object P L H _ req _ s λ kcm _.
      Implements-with_secret P L H _ (beside req kcm.spec.tls.kube_controller_manager) _ s λ tls _.
        Implements-with_secret P L H _ (beside req kcm.spec.tls.service_accounts_tls) _ s λ _ _.
          Implements-with_secret P L H _ (beside req kcm.spec.tls.ca) _ s
            λ _ _. sync-Implements kcm tls s
