-- ===== src/KubeScheduler/Runs.antt =====
-- Whole runs of the scheduler's reconciler.
use kubeception_operator.Base.{◌≡◌, refl, ap, ◌∙◌, ok, ◌⊎◌, inl, inr, [], ◌∷◌, arith}
use kubeception_operator.Base.Dict.{made}
use kubeception_operator.Types.Meta.{Key}
use kubeception_operator.Types.Crd.{KubeScheduler}
use kubeception_operator.Types.Core.{Bytes}
use kubeception_operator.Types.Kinds.{Kind, Obj}
use kubeception_operator.Types.Kinds.Zero.{fresh}
use kubeception_operator.Platform.Interface.{Platform, IsLawful, IsHealthy}
use kubeception_operator.Platform.Fetch.{done, or_done, or_requeue}
use kubeception_operator.Platform.Yields.{Yields, Yields-pure, Yields-write}
use kubeception_operator.Platform.Healthy.{
  Succeeds, Succeeds-pure, Succeeds-bind, Succeeds-apply_owned,
}
use kubeception_operator.Platform.Effects.{
  Touches, Touches-pure, Touches-bind, Touches-or_requeue, Touches-apply_owned,
}
use kubeception_operator.Utils.{beside, generate_kubeconfig, service_url}
use kubeception_operator.KubeScheduler.{
  configuration, mutate_config, own_labels, deployment_spec, mutate_deployment, sync, reconcile,
}

abbrev with_data : Obj Kind.secret → Bytes → Bytes → Obj Kind.secret
with_data o json kubeconfig = record o {
  spec = made (("kubeconfig.yml", kubeconfig) ∷ ("config.json", json) ∷ []);
}

module _ (P : Platform) (req : Key) (ks : KubeScheduler) where
  open P use {State, get}

  -- The configuration and the Deployment are as the specification says.
  pub record IsDeployed (json kubeconfig : Bytes) (s : State) : Type 0 where
    pub config : Obj Kind.secret
    pub config_stored : get Kind.secret (beside req "kube-scheduler-config") s ≡ ok config
    pub config_data :
        config.spec ≡ made (("kubeconfig.yml", kubeconfig) ∷ ("config.json", json) ∷ [])
    pub deployment : Obj Kind.deployment
    pub deployment_stored : get Kind.deployment (beside req "kube-scheduler") s ≡ ok deployment
    pub deployment_labels : deployment.meta.labels ≡ own_labels ks
    pub deployment_spec_is : deployment.spec ≡ deployment_spec ks

module _ (P : Platform) (L : IsLawful P) (req : Key) (ks : KubeScheduler) where
  open P use {State, Error, get, marshal}

  module _ (tls : Obj Kind.secret) (json kubeconfig : Bytes)
      (marshals : marshal configuration ≡ ok json)
      (generates : generate_kubeconfig P tls (service_url ks.spec.kube_api_server_service)
        ≡ ok kubeconfig) where
    mutate_config_lem :
        (o : Obj Kind.secret) → mutate_config P ks tls o ≡ ok (with_data o json kubeconfig)
    unfolding mutate_config
    mutate_config_lem o = rw (marshals, generates)

    sync-IsDeployed :
        (s : State)
        → Yields (sync P req ks tls) s (λ a s'. (a ≡ done) × IsDeployed P req ks json kubeconfig s')
    unfolding sync mutate_deployment
    sync-IsDeployed s =
        Yields-write P L Kind.kube_scheduler ks.meta Kind.secret
          (fresh Kind.secret req.namespace "kube-scheduler-config") (mutate_config P ks tls) _ s
          λ config b1 s1 _ m1 g1 _.
            Yields-write P L Kind.kube_scheduler ks.meta Kind.deployment
              (fresh Kind.deployment req.namespace "kube-scheduler") (mutate_deployment ks) _ s1
              λ d b2 s2 _ m2 g2 k2.
                let made_config : config ≡ with_data b1 json kubeconfig =
                  cc (mutate_config_lem b1, m1) in
                Yields-pure done s2 (
                  refl,
                  record {
                    config = config;
                    config_stored =
                        k2 Kind.secret (beside req "kube-scheduler-config") (λ e. cc (e.0)) ∙ g1;
                    config_data = ap (λ (x : Obj Kind.secret). x.spec) made_config;
                    deployment = d;
                    deployment_stored = g2;
                    deployment_labels = ground (arith, m2);
                    deployment_spec_is = ground (arith, m2);
                  },
                )

    sync-Succeeds : IsHealthy P → Succeeds (sync P req ks tls)
    unfolding sync mutate_deployment
    sync-Succeeds H =
        Succeeds-bind _ _
          (Succeeds-apply_owned P L H Kind.kube_scheduler ks.meta Kind.secret
            (fresh Kind.secret req.namespace "kube-scheduler-config") (mutate_config P ks tls)
            (λ b. (_, mutate_config_lem b, refl)))
          λ _.
            Succeeds-bind _ _
              (Succeeds-apply_owned P L H Kind.kube_scheduler ks.meta Kind.deployment
                (fresh Kind.deployment req.namespace "kube-scheduler") (mutate_deployment ks)
                (λ b. (_, refl, refl)))
              λ _. Succeeds-pure done

    -- On a platform that does not fail, with the certificate's Secret there and both encoders
    -- working, a run ends without an error and leaves the configuration and the Deployment.
    pub scheduler_deploys :
        IsHealthy P
        → (s : State) → get Kind.kube_scheduler req s ≡ ok ks
        → get Kind.secret (beside req ks.spec.kube_scheduler_tls) s ≡ ok tls
        → ((reconcile P req s).0 ≡ ok done)
          × IsDeployed P req ks json kubeconfig (reconcile P req s).1
    unfolding reconcile
    scheduler_deploys H s found secret_found =
        let (ending, e) = (sync-Succeeds H).result s in
        let (is_done, deployed) = (sync-IsDeployed s).holds ending e in
        rw (found, or_done) (rw (secret_found, or_requeue) (rw is_done at e, deployed))

  Own : Kind → Key → Type 0
  Own k key =
      ((k ≡ Kind.secret) × (key ≡ beside req "kube-scheduler-config"))
      ⊎ ((k ≡ Kind.deployment) × (key ≡ beside req "kube-scheduler"))

  sync-Touches : (tls : Obj Kind.secret) → Touches P Own (sync P req ks tls)
  unfolding sync Own
  sync-Touches tls =
      Touches-bind _ _
        (Touches-apply_owned L Kind.kube_scheduler ks.meta Kind.secret
          (fresh Kind.secret req.namespace "kube-scheduler-config") (mutate_config P ks tls)
          (inl (refl, refl)))
        λ _.
          Touches-bind _ _
            (Touches-apply_owned L Kind.kube_scheduler ks.meta Kind.deployment
              (fresh Kind.deployment req.namespace "kube-scheduler") (mutate_deployment ks)
              (inr (refl, refl)))
            λ _. Touches-pure done

  -- However a run ends, it has left alone every object but its configuration and its Deployment.
  pub scheduler_kept :
      (s : State)
      → get Kind.kube_scheduler req s ≡ ok ks
      → (k : Kind) (key : Key) → ¬ ((k ≡ Kind.secret) × (key ≡ beside req "kube-scheduler-config"))
      → ¬ ((k ≡ Kind.deployment) × (key ≡ beside req "kube-scheduler"))
      → get k key (reconcile P req s).1 ≡ get k key s
  unfolding reconcile Own
  scheduler_kept s found k key no_secret no_deployment =
      rw (found, or_done)
        ((Touches-or_requeue (get Kind.secret (beside req ks.spec.kube_scheduler_tls))
            (sync P req ks) sync-Touches).kept
          s k key (elim [ inl same ↦ no_secret same | inr same ↦ no_deployment same ]))
