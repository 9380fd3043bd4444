-- ===== src/KubeScheduler/Plan.antt =====
-- What the scheduler's reconciler promises, as a change of a table of objects.
use kubeception_operator.Base.{refl, [], ◌∷◌}
use kubeception_operator.Base.Dict.{made}
use kubeception_operator.Types.Meta.{Key}
use kubeception_operator.Types.Crd.{KubeScheduler}
use kubeception_operator.Types.Core.{Bytes}
use kubeception_operator.Types.Kinds.{Kind, Obj}
use kubeception_operator.Types.Kinds.Zero.{fresh}
use kubeception_operator.Platform.Interface.{
  Kubeconfig, SchedulerConfiguration, Platform, IsLawful, IsHealthy,
}
use kubeception_operator.Platform.Owned.{controlled}
use kubeception_operator.Platform.Fetch.{done}
use kubeception_operator.Platform.View.{
  Write, execute, Plan, on_object, on_secret, view, Encodes, Implements, Implements-pure,
  Implements-write, Implements-with_object, Implements-with_secret,
}
use kubeception_operator.Utils.{beside, kubeconfig_of, generate_kubeconfig, service_url}
use kubeception_operator.KubeScheduler.{
  configuration, own_labels, deployment_spec, mutate_config, mutate_deployment, sync, reconcile,
}

module _ (encode : Kubeconfig → Bytes) (encode_json : SchedulerConfiguration → Bytes) (req : Key)
    (ks : KubeScheduler) where
  abbrev pub config_write : Obj Kind.secret → Write
  config_write tls = record {
    kind = Kind.secret;
    initial =
        controlled Kind.kube_scheduler ks.meta Kind.secret
          (fresh Kind.secret req.namespace "kube-scheduler-config");
    change = λ o. record o {
      spec = made (
          (
            "kubeconfig.yml",
            encode (kubeconfig_of tls.spec (service_url ks.spec.kube_api_server_service)),
          )
          ∷ ("config.json", encode_json configuration)
          ∷ []);
    };
  }

  abbrev pub deployment_write : Write
  deployment_write = record {
    kind = Kind.deployment;
    initial =
        controlled Kind.kube_scheduler ks.meta Kind.deployment
          (fresh Kind.deployment req.namespace "kube-scheduler");
    change = λ o. record o {
      meta = record o.meta { labels = own_labels ks };
      spec = deployment_spec ks;
    };
  }

-- With the certificate's Secret there, the configuration and the Deployment are kept.
unfoldable pub plan : (Kubeconfig → Bytes) → (SchedulerConfiguration → Bytes) → Key → Plan
unfolding kubeconfig_of service_url deployment_spec
plan encode encode_json req t =
    on_object (t Kind.kube_scheduler req)
      (λ ks t.
        on_secret (t Kind.secret (beside req ks.spec.kube_scheduler_tls))
          (λ tls t. (
            done,
            execute
                (config_write encode encode_json req ks tls
                  ∷ deployment_write encode encode_json req ks
                  ∷ [])
                t,
          ))
          t)
      t

module _ (P : Platform) (L : IsLawful P) (H : IsHealthy P) (E : Encodes P) (req : Key) where
  open P use {State}

  sync-Implements :
      (ks : KubeScheduler) (tls : Obj Kind.secret) (s : State)
      → Implements P (sync P req ks tls s) (
        done,
        execute
            (config_write E.encode E.encode_json req ks tls
              ∷ deployment_write E.encode E.encode_json req ks
              ∷ [])
            (view P s),
      )
  unfolding sync execute mutate_config mutate_deployment generate_kubeconfig
  sync-Implements ks tls s =
      Implements-write P L H Kind.kube_scheduler ks.meta Kind.secret
        (fresh Kind.secret req.namespace "kube-scheduler-config") (mutate_config P ks tls)
        (config_write E.encode E.encode_json req ks tls).change
        (λ b. rw (E.configurations configuration, E.kubeconfigs _) refl) (λ _. refl)
        (λ t. (done, execute (deployment_write E.encode E.encode_json req ks ∷ []) t)) _ s
        λ s1.
          Implements-write P L H Kind.kube_scheduler ks.meta Kind.deployment
            (fresh Kind.deployment req.namespace "kube-scheduler") (mutate_deployment ks)
            (deployment_write E.encode E.encode_json req ks).change (λ b. refl) (λ _. refl)
            (λ t. (done, t)) _ s1 λ s2. Implements-pure P done s2

  -- The reconciler implements the plan, whatever the state.
  pub reconcile-Implements :
      (s : State) → Implements P (reconcile P req s) (plan E.encode E.encode_json req (view P s))
  unfolding reconcile plan
  reconcile-Implements s = Implements-with_object P L H _ req _ s λ ks _.
      Implements-with_secret P L H _ (beside req ks.spec.kube_scheduler_tls) (sync P req ks) s
        λ tls _. sync-Implements ks tls s
