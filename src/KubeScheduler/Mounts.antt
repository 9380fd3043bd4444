-- ===== src/KubeScheduler/Mounts.antt =====
-- What the scheduler's Deployment mounts.
use kubeception_operator.Base.{◌≡◌, refl, ◌∙◌, ok, String_discrete}
use kubeception_operator.Types.Meta.{Key}
use kubeception_operator.Types.Crd.{KubeScheduler}
use kubeception_operator.Types.Kinds.{Kind, Obj}
use kubeception_operator.Types.Kinds.Zero.{fresh}
use kubeception_operator.Platform.Interface.{Platform, IsLawful}
use kubeception_operator.Platform.Fetch.{Ending, done, or_done}
use kubeception_operator.Platform.Gets.{Yields-with_secret}
use kubeception_operator.Platform.Yields.{Yields, Yields-pure, Yields-write}
use kubeception_operator.Utils.{beside}
use kubeception_operator.Workloads.{IsAcceptable, SourcesExist, Exists-write}
use kubeception_operator.KubeScheduler.{
  container, deployment_spec, mutate_config, mutate_deployment, sync, reconcile,
}

-- The Deployment selects its own pods, its volumes have different names, and each mount names one
-- of them.
pub scheduler_spec-IsAcceptable : (ks : KubeScheduler) → IsAcceptable (deployment_spec ks)
unfolding deployment_spec container String_discrete
scheduler_spec-IsAcceptable ks = record {
  selects_own = refl;
  distinct_volumes = refl;
  declared_mounts = refl;
}

module _ (P : Platform) (L : IsLawful P) (req : Key) (ks : KubeScheduler) where
  open P use {State, Error, get}

  abbrev Mounted : Ending → State → Type 0
  Mounted a s = a ≡ done → SourcesExist P req (deployment_spec ks).template.spec.volumes s

  sync-SourcesExist :
      (tls : Obj Kind.secret) (s : State)
      → get Kind.secret (beside req ks.spec.kube_scheduler_tls) s ≡ ok tls
      → Yields (sync P req ks tls) s Mounted
  unfolding sync deployment_spec
  sync-SourcesExist tls s tls_found =
      Yields-write P L Kind.kube_scheduler ks.meta Kind.secret
        (fresh Kind.secret req.namespace "kube-scheduler-config") (mutate_config P ks tls) _ s
        λ config _ s1 _ _ g1 k1.
          Yields-write P L Kind.kube_scheduler ks.meta Kind.deployment
            (fresh Kind.deployment req.namespace "kube-scheduler") (mutate_deployment ks) _ s1
            λ _ _ s2 _ _ _ k2.
              let (tls', tls_kept) =
                Exists-write P Kind.secret (beside req "kube-scheduler-config") config s s1 g1 k1
                  Kind.secret (beside req ks.spec.kube_scheduler_tls) (tls, tls_found) in
              Yields-pure done s2 λ _. (
                (config, k2 Kind.secret _ (λ e. cc (e.0)) ∙ g1),
                ((tls', k2 Kind.secret _ (λ e. cc (e.0)) ∙ tls_kept), tt),
              )

  -- A run that ends without an error and without a requeue leaves a cluster that holds every Secret
  -- that the scheduler's Deployment mounts.
  pub scheduler-SourcesExist :
      (s : State)
      → get Kind.kube_scheduler req s ≡ ok ks
      → (reconcile P req s).0 ≡ ok done
      → SourcesExist P req (deployment_spec ks).template.spec.volumes (reconcile P req s).1
  unfolding reconcile
  scheduler-SourcesExist s found ended =
      rw (found, or_done)
        ((Yields-with_secret P s _ (sync P req ks) (λ tls there. sync-SourcesExist tls s there)
            (λ _ h. cc h)).holds
          done (rw (found, or_done) at ended) refl)
