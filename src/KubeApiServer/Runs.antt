-- ===== src/KubeApiServer/Runs.antt =====
-- Whole runs of the API server's reconciler.
use kubeception_operator.Base.{String, ◌≡◌, ◌≢◌, refl, ap, ◌∙◌, ok, ◌⊎◌, inl, inr, [], ◌∷◌, arith}
use kubeception_operator.Base.Dict.{made}
use kubeception_operator.Types.Meta.{Key}
use kubeception_operator.Types.Crd.{KubeApiServer}
use kubeception_operator.Types.Core.{Bytes}
use kubeception_operator.Types.Kinds.{Kind, Obj}
use kubeception_operator.Types.Kinds.Zero.{fresh}
use kubeception_operator.Platform.Interface.{Platform, IsLawful, IsHealthy}
use kubeception_operator.Platform.Fetch.{done, or_done, or_requeue}
use kubeception_operator.Platform.Gets.{Yields-found, Succeeds-with_secret}
use kubeception_operator.Platform.Yields.{Yields, Yields-pure, Yields-write}
use kubeception_operator.Platform.Healthy.{
  Succeeds, Succeeds-pure, Succeeds-bind, Succeeds-apply_owned,
}
use kubeception_operator.Platform.Effects.{
  Touches, Touches-pure, Touches-bind, Touches-or_requeue, Touches-apply_owned,
}
use kubeception_operator.Utils.{beside, generate_kubeconfig, kubeconfig_data, kubeconfig_name}
use kubeception_operator.KubeApiServer.Deployment.{generate_deployment}
use kubeception_operator.KubeApiServer.{
  mutate_kubeconfig, egress, mutate_egress, mutate_deployment, deploy, sync, reconcile,
}

module _ (P : Platform) (req : Key) (kas : KubeApiServer) where
  open P use {State, get}

  -- The kubeconfig, the egress configuration and the Deployment are as the specification says.
  pub record IsDeployed (kubeconfig : Bytes) (s : State) : Type 0 where
    pub secret : Obj Kind.secret
    pub secret_stored :
        get Kind.secret (beside req (kubeconfig_name kas.spec.tls.konnectivity_secret_name)) s
        ≡ ok secret
    pub secret_data : secret.spec ≡ kubeconfig_data kubeconfig
    pub config : Obj Kind.config_map
    pub config_stored : get Kind.config_map (beside req "konnectivity-egress") s ≡ ok config
    pub config_data : config.spec ≡ made (("egress.yaml", egress) ∷ [])
    pub deployment : Obj Kind.deployment
    pub deployment_stored :
        get Kind.deployment (beside req kas.spec.deployment.name) s ≡ ok deployment
    pub deployment_labels : deployment.meta.labels ≡ (generate_deployment kas).meta.labels
    pub deployment_spec_is : deployment.spec ≡ (generate_deployment kas).spec

  -- A Secret that is there, under another name than the kubeconfig.
  abbrev pub IsReady : String → State → Type 0
  IsReady name s =
      (name ≢ kubeconfig_name kas.spec.tls.konnectivity_secret_name)
      × ((o : Obj Kind.secret) × (get Kind.secret (beside req name) s ≡ ok o))

module _ (P : Platform) (L : IsLawful P) (req : Key) (kas : KubeApiServer) where
  open P use {State, Error, get}

  module _ (tls : Obj Kind.secret) (kubeconfig : Bytes)
      (generates : generate_kubeconfig P tls "https://kube-apiserver:6443" ≡ ok kubeconfig) where
    mutate_kubeconfig_lem :
        (o : Obj Kind.secret)
        → mutate_kubeconfig P tls o ≡ ok (record o { spec = kubeconfig_data kubeconfig })
    unfolding mutate_kubeconfig
    mutate_kubeconfig_lem o = rw generates

    sync-IsDeployed :
        (s : State)
        → IsReady P req kas kas.spec.tls.ca_secret_name s
        → IsReady P req kas kas.spec.tls.kube_api_server_secret_name s
        → IsReady P req kas kas.spec.tls.service_accounts_secret_name s
        → Yields (sync P req kas tls) s (λ a s'. (a ≡ done) × IsDeployed P req kas kubeconfig s')
    unfolding sync deploy mutate_egress mutate_deployment
    sync-IsDeployed s (ca_other, (ca, ca_found)) (cert_other, (cert, cert_found))
          (sa_other, (sa, sa_found)) =
        Yields-write P L Kind.kube_api_server kas.meta Kind.secret
          (fresh Kind.secret req.namespace (kubeconfig_name kas.spec.tls.konnectivity_secret_name))
          (mutate_kubeconfig P tls) _ s
          λ secret b1 s1 _ m1 g1 k1.
            Yields-write P L Kind.kube_api_server kas.meta Kind.config_map
              (fresh Kind.config_map req.namespace "konnectivity-egress") mutate_egress _ s1
              λ config b2 s2 _ m2 g2 k2.
                let keep : (name : String)
                    → name ≢ kubeconfig_name kas.spec.tls.konnectivity_secret_name
                    → get Kind.secret (beside req name) s2 ≡ get Kind.secret (beside req name) s =
                  λ name other.
                    k2 Kind.secret (beside req name) (λ e. cc (e.0))
                    ∙ k1 Kind.secret (beside req name) (λ e. let e1 = e.1 in other (cc e1)) in
                Yields-found P s2 _ _ ca (keep _ ca_other ∙ ca_found) (
                  Yields-found P s2 _ _ cert (keep _ cert_other ∙ cert_found) (
                    Yields-found P s2 _ _ sa (keep _ sa_other ∙ sa_found) (
                      Yields-write P L Kind.kube_api_server kas.meta Kind.deployment
                        (fresh Kind.deployment req.namespace kas.spec.deployment.name)
                        (mutate_deployment kas) _ s2
                        λ d b3 s3 _ m3 g3 k3.
                          let made_secret : secret
                              ≡ record b1 { spec = kubeconfig_data kubeconfig } =
                            cc (mutate_kubeconfig_lem b1, m1) in
                          Yields-pure done s3 (
                            refl,
                            record {
                              secret = secret;
                              secret_stored =
                                  k3 Kind.secret _ (λ e. cc (e.0))
                                  ∙ (k2 Kind.secret _ (λ e. cc (e.0)) ∙ g1);
                              secret_data = ap (λ (x : Obj Kind.secret). x.spec) made_secret;
                              config = config;
                              config_stored = k3 Kind.config_map _ (λ e. cc (e.0)) ∙ g2;
                              config_data = ground (arith, m2);
                              deployment = d;
                              deployment_stored = g3;
                              deployment_labels = ground (arith, m3);
                              deployment_spec_is = ground (arith, m3);
                            },
                          ))))

    pub sync-Succeeds : IsHealthy P → Succeeds (sync P req kas tls)
    unfolding sync deploy mutate_egress mutate_deployment
    sync-Succeeds H =
        Succeeds-bind _ _
          (Succeeds-apply_owned P L H Kind.kube_api_server kas.meta Kind.secret
            (fresh Kind.secret req.namespace
              (kubeconfig_name kas.spec.tls.konnectivity_secret_name))
            (mutate_kubeconfig P tls) (λ b. (_, mutate_kubeconfig_lem b, refl)))
          λ _.
            Succeeds-bind _ _
              (Succeeds-apply_owned P L H Kind.kube_api_server kas.meta Kind.config_map
                (fresh Kind.config_map req.namespace "konnectivity-egress") mutate_egress
                (λ b. (_, refl, refl)))
              λ _. Succeeds-with_secret P _ _ λ _. Succeeds-with_secret P _ _ λ _.
                Succeeds-with_secret P _ _ λ _.
                  Succeeds-bind _ _
                    (Succeeds-apply_owned P L H Kind.kube_api_server kas.meta Kind.deployment
                      (fresh Kind.deployment req.namespace kas.spec.deployment.name)
                      (mutate_deployment kas) (λ b. (_, refl, refl)))
                    λ _. Succeeds-pure done

    -- On a platform that does not fail, with the four Secrets there, the last three of them under
    -- other names than the kubeconfig's, and a kubeconfig that can be generated, a run ends without
    -- an error and leaves the kubeconfig, the egress configuration and the Deployment.
    pub api_server_deploys :
        IsHealthy P
        → (s : State) → get Kind.kube_api_server req s ≡ ok kas
        → get Kind.secret (beside req kas.spec.tls.konnectivity_secret_name) s ≡ ok tls
        → IsReady P req kas kas.spec.tls.ca_secret_name s
        → IsReady P req kas kas.spec.tls.kube_api_server_secret_name s
        → IsReady P req kas kas.spec.tls.service_accounts_secret_name s
        → ((reconcile P req s).0 ≡ ok done) × IsDeployed P req kas kubeconfig (reconcile P req s).1
    unfolding reconcile
    api_server_deploys H s found tls_found ca cert sa =
        let (ending, e) = (sync-Succeeds H).result s in
        let (is_done, deployed) = (sync-IsDeployed s ca cert sa).holds ending e in
        rw (found, or_done) (rw (tls_found, or_requeue) (rw is_done at e, deployed))

  Own : Kind → Key → Type 0
  Own k key =
      ((k ≡ Kind.secret)
        × (key ≡ beside req (kubeconfig_name kas.spec.tls.konnectivity_secret_name)))
      ⊎ (((k ≡ Kind.config_map) × (key ≡ beside req "konnectivity-egress"))
          ⊎ ((k ≡ Kind.deployment) × (key ≡ beside req kas.spec.deployment.name)))

  sync-Touches : (tls : Obj Kind.secret) → Touches P Own (sync P req kas tls)
  unfolding sync deploy Own
  sync-Touches tls =
      Touches-bind _ _
        (Touches-apply_owned L Kind.kube_api_server kas.meta Kind.secret
          (fresh Kind.secret req.namespace (kubeconfig_name kas.spec.tls.konnectivity_secret_name))
          (mutate_kubeconfig P tls) (inl (refl, refl)))
        λ _.
          Touches-bind _ _
            (Touches-apply_owned L Kind.kube_api_server kas.meta Kind.config_map
              (fresh Kind.config_map req.namespace "konnectivity-egress") mutate_egress
              (inr (inl (refl, refl))))
            λ _.
              Touches-or_requeue (get Kind.secret (beside req kas.spec.tls.ca_secret_name)) _ λ _.
                Touches-or_requeue
                  (get Kind.secret (beside req kas.spec.tls.kube_api_server_secret_name)) _
                  λ _.
                    Touches-or_requeue
                      (get Kind.secret (beside req kas.spec.tls.service_accounts_secret_name)) _
                      λ _.
                        Touches-bind _ _
                          (Touches-apply_owned L Kind.kube_api_server kas.meta Kind.deployment
                            (fresh Kind.deployment req.namespace kas.spec.deployment.name)
                            (mutate_deployment kas) (inr (inr (refl, refl))))
                          λ _. Touches-pure done

  -- However a run ends, it has left alone every object but its kubeconfig, its egress configuration
  -- and its Deployment.
  pub api_server_kept :
      (s : State)
      → get Kind.kube_api_server req s ≡ ok kas
      → (k : Kind) (key : Key)
      → ¬ (
          (k ≡ Kind.secret)
          × (key ≡ beside req (kubeconfig_name kas.spec.tls.konnectivity_secret_name)))
      → ¬ ((k ≡ Kind.config_map) × (key ≡ beside req "konnectivity-egress"))
      → ¬ ((k ≡ Kind.deployment) × (key ≡ beside req kas.spec.deployment.name))
      → get k key (reconcile P req s).1 ≡ get k key s
  unfolding reconcile Own
  api_server_kept s found k key no_secret no_config no_deployment =
      rw (found, or_done)
        ((Touches-or_requeue (get Kind.secret (beside req kas.spec.tls.konnectivity_secret_name))
            (sync P req kas) sync-Touches).kept
          s k key
          (elim [
            | inl same ↦ no_secret same
            | inr (inl same) ↦ no_config same
            | inr (inr same) ↦ no_deployment same
          ]))
