-- ===== src/KubeApiServer/Plan.antt =====
-- What the API server's reconciler promises, as a change of a table of objects.
use kubeception_operator.Base.{refl, [], ◌∷◌}
use kubeception_operator.Base.Dict.{made}
use kubeception_operator.Types.Meta.{Key}
use kubeception_operator.Types.Crd.{KubeApiServer}
use kubeception_operator.Types.Core.{Bytes}
use kubeception_operator.Types.Kinds.{Kind, Obj}
use kubeception_operator.Types.Kinds.Zero.{fresh}
use kubeception_operator.Platform.Interface.{Kubeconfig, Platform, IsLawful, IsHealthy}
use kubeception_operator.Platform.Owned.{controlled}
use kubeception_operator.Platform.Fetch.{done}
use kubeception_operator.Platform.View.{
  Write, execute, Plan, on_object, on_secret, view, Encodes, Implements, Implements-pure,
  Implements-write, Implements-with_object, Implements-with_secret,
}
use kubeception_operator.Utils.{
  beside, kubeconfig_of, generate_kubeconfig, kubeconfig_data, kubeconfig_name,
}
use kubeception_operator.KubeApiServer.Deployment.{generate_deployment}
use kubeception_operator.KubeApiServer.{
  egress, mutate_kubeconfig, mutate_egress, mutate_deployment, deploy, sync, reconcile,
}

module _ (encode : Kubeconfig → Bytes) (req : Key) (kas : KubeApiServer) where
  abbrev pub kubeconfig_write : Obj Kind.secret → Write
  kubeconfig_write tls = record {
    kind = Kind.secret;
    initial =
        controlled Kind.kube_api_server kas.meta Kind.secret
          (fresh Kind.secret req.namespace (kubeconfig_name kas.spec.tls.konnectivity_secret_name));
    change = λ o. record o {
      spec = kubeconfig_data (encode (kubeconfig_of tls.spec "https://kube-apiserver:6443"));
    };
  }

  abbrev pub egress_write : Write
  egress_write = record {
    kind = Kind.config_map;
    initial =
        controlled Kind.kube_api_server kas.meta Kind.config_map
          (fresh Kind.config_map req.namespace "konnectivity-egress");
    change = λ o. record o { spec = made (("egress.yaml", egress) ∷ []) };
  }

  abbrev pub deployment_write : Write
  deployment_write = record {
    kind = Kind.deployment;
    initial =
        controlled Kind.kube_api_server kas.meta Kind.deployment
          (fresh Kind.deployment req.namespace kas.spec.deployment.name);
    change = λ o. record o {
      meta = record o.meta { labels = (generate_deployment kas).meta.labels };
      spec = (generate_deployment kas).spec;
    };
  }

  -- The Deployment is kept once the Secrets are there that it mounts.
  abbrev pub deploy_plan : Plan
  deploy_plan t =
      on_secret (t Kind.secret (beside req kas.spec.tls.ca_secret_name))
        (λ _ t.
          on_secret (t Kind.secret (beside req kas.spec.tls.kube_api_server_secret_name))
            (λ _ t.
              on_secret (t Kind.secret (beside req kas.spec.tls.service_accounts_secret_name))
                (λ _ t. (done, execute (deployment_write ∷ []) t)) t)
            t)
        t

-- With the konnectivity Secret there, the kubeconfig and the egress configuration are kept.
unfoldable pub plan : (Kubeconfig → Bytes) → Key → Plan
unfolding kubeconfig_of egress generate_deployment execute
plan encode req t =
    on_object (t Kind.kube_api_server req)
      (λ kas t.
        on_secret (t Kind.secret (beside req kas.spec.tls.konnectivity_secret_name))
          (λ tls t.
            deploy_plan encode req kas
              (execute (kubeconfig_write encode req kas tls ∷ egress_write encode req kas ∷ []) t))
          t)
      t

module _ (P : Platform) (L : IsLawful P) (H : IsHealthy P) (E : Encodes P) (req : Key) where
  sync-Implements :
      (kas : KubeApiServer) (tls : Obj Kind.secret) (s : P.State)
      → Implements P (sync P req kas tls s) (
          deploy_plan E.encode req kas (
            execute
              (kubeconfig_write E.encode req kas tls ∷ egress_write E.encode req kas ∷ [])
              (view P s)))
  unfolding sync deploy execute mutate_kubeconfig mutate_egress mutate_deployment
      generate_kubeconfig
  sync-Implements kas tls s =
      Implements-write P L H Kind.kube_api_server kas.meta Kind.secret
        (fresh Kind.secret req.namespace (kubeconfig_name kas.spec.tls.konnectivity_secret_name))
        (mutate_kubeconfig P tls) (kubeconfig_write E.encode req kas tls).change
        (λ b. rw (E.kubeconfigs _) refl) (λ _. refl)
        (λ t. deploy_plan E.encode req kas (execute (egress_write E.encode req kas ∷ []) t)) _ s
        λ s1.
          Implements-write P L H Kind.kube_api_server kas.meta Kind.config_map
            (fresh Kind.config_map req.namespace "konnectivity-egress") mutate_egress
            (egress_write E.encode req kas).change (λ b. refl) (λ _. refl)
            (deploy_plan E.encode req kas) _ s1
            λ s2.
              Implements-with_secret P L H _ (beside req kas.spec.tls.ca_secret_name) _ s2 λ _ _.
                Implements-with_secret P L H _ (beside req kas.spec.tls.kube_api_server_secret_name)
                  _ s2
                  λ _ _.
                    Implements-with_secret P L H _
                      (beside req kas.spec.tls.service_accounts_secret_name) _ s2
                      λ _ _.
                        Implements-write P L H Kind.kube_api_server kas.meta Kind.deployment
                          (fresh Kind.deployment req.namespace kas.spec.deployment.name)
                          (mutate_deployment kas) (deployment_write E.encode req kas).change
                          (λ b. refl) (λ _. refl) (λ t. (done, t)) _ s2
                          λ s3. Implements-pure P done s3

  -- The reconciler implements the plan, whatever the state.
  pub reconcile-Implements :
      (s : P.State) → Implements P (reconcile P req s) (plan E.encode req (view P s))
  unfolding reconcile plan
  reconcile-Implements s = Implements-with_object P L H _ req _ s λ kas _.
      Implements-with_secret P L H _ (beside req kas.spec.tls.konnectivity_secret_name)
        (sync P req kas) s λ tls _. sync-Implements kas tls s
