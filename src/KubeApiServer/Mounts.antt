-- ===== src/KubeApiServer/Mounts.antt =====
-- What the API server's Deployment mounts.
use kubeception_operator.Base.{◌≡◌, refl, ◌∙◌, ok, String_discrete}
use kubeception_operator.Types.Meta.{Key}
use kubeception_operator.Types.Crd.{KubeApiServer}
use kubeception_operator.Types.Kinds.{Kind, Obj}
use kubeception_operator.Types.Kinds.Zero.{fresh}
use kubeception_operator.Platform.Interface.{Platform, IsLawful}
use kubeception_operator.Platform.Fetch.{Ending, done, or_done}
use kubeception_operator.Platform.Gets.{Yields-with_secret}
use kubeception_operator.Platform.Yields.{Yields, Yields-pure, Yields-write}
use kubeception_operator.Utils.{kubeconfig_name}
use kubeception_operator.Workloads.{IsAcceptable, SourcesExist}
use kubeception_operator.KubeApiServer.Deployment.{
  konnectivity, kube_api_server, generate_deployment,
}
use kubeception_operator.KubeApiServer.{
  mutate_kubeconfig, mutate_egress, mutate_deployment, deploy, sync, reconcile,
}

-- The generated Deployment selects its own pods, its volumes have different names, and each mount
-- of both containers names one of them.
pub api_server_spec-IsAcceptable :
    (kas : KubeApiServer) → IsAcceptable (generate_deployment kas).spec
unfolding generate_deployment konnectivity kube_api_server String_discrete
api_server_spec-IsAcceptable kas = record {
  selects_own = refl;
  distinct_volumes = refl;
  declared_mounts = refl;
}

module _ (P : Platform) (L : IsLawful P) (req : Key) (kas : KubeApiServer) where
  open P use {State, Error, get}

  abbrev Mounted : Ending → State → Type 0
  Mounted a s = a ≡ done → SourcesExist P req (generate_deployment kas).spec.template.spec.volumes s

  sync-SourcesExist : (tls : Obj Kind.secret) (s : State) → Yields (sync P req kas tls) s Mounted
  unfolding sync deploy generate_deployment
  sync-SourcesExist tls s =
      Yields-write P L Kind.kube_api_server kas.meta Kind.secret
        (fresh Kind.secret req.namespace (kubeconfig_name kas.spec.tls.konnectivity_secret_name))
        (mutate_kubeconfig P tls) _ s
        λ secret _ s1 _ _ g1 _.
          Yields-write P L Kind.kube_api_server kas.meta Kind.config_map
            (fresh Kind.config_map req.namespace "konnectivity-egress") mutate_egress _ s1
            λ config _ s2 _ _ g2 k2.
              Yields-with_secret P s2 _ _
                (λ ca ca_found.
                  Yields-with_secret P s2 _ _
                    (λ cert cert_found.
                      Yields-with_secret P s2 _ _
                        (λ accounts accounts_found.
                          Yields-write P L Kind.kube_api_server kas.meta Kind.deployment
                            (fresh Kind.deployment req.namespace kas.spec.deployment.name)
                            (mutate_deployment kas) _ s2
                            λ _ _ s3 _ _ _ k3. Yields-pure done s3 λ _. (
                              (ca, k3 Kind.secret _ (λ e. cc (e.0)) ∙ ca_found),
                              (
                                (accounts, k3 Kind.secret _ (λ e. cc (e.0)) ∙ accounts_found),
                                (
                                  (cert, k3 Kind.secret _ (λ e. cc (e.0)) ∙ cert_found),
                                  (
                                    (config, k3 Kind.config_map _ (λ e. cc (e.0)) ∙ g2),
                                    (
                                      (
                                        secret,
                                        k3 Kind.secret _ (λ e. cc (e.0))
                                            ∙ (k2 Kind.secret _ (λ e. cc (e.0)) ∙ g1),
                                      ),
                                      (tt, tt),
                                    ),
                                  ),
                                ),
                              ),
                            ))
                        (λ _ h. cc h))
                    (λ _ h. cc h))
                (λ _ h. cc h)

  -- A run that ends without an error and without a requeue leaves a cluster that holds every Secret
  -- and the ConfigMap that the generated Deployment mounts.
  pub api_server-SourcesExist :
      (s : State)
      → get Kind.kube_api_server req s ≡ ok kas
      → (reconcile P req s).0 ≡ ok done
      → SourcesExist P req
          (generate_deployment kas).spec.template.spec.volumes
          (reconcile P req s).1
  unfolding reconcile
  api_server-SourcesExist s found ended =
      rw (found, or_done)
        ((Yields-with_secret P s _ (sync P req kas) (λ tls _. sync-SourcesExist tls s)
            (λ _ h. cc h)).holds
          done (rw (found, or_done) at ended) refl)
