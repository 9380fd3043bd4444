-- ===== src/KubeControllerManager/Mounts.antt =====
-- What the controller manager's Deployment mounts.
use kubeception_operator.Base.{
  ◌≡◌, ◌≢◌, refl, ◌∙◌, ok, String, String_discrete, List, [], ◌∷◌, ◌⊎◌, inl, inr,
}
use kubeception_operator.Types.Meta.{Key}
use kubeception_operator.Types.Crd.{KubeControllerManager}
use kubeception_operator.Types.Core.{Volume, secret}
use kubeception_operator.Types.Kinds.{Kind, Obj}
use kubeception_operator.Types.Kinds.Zero.{fresh}
use kubeception_operator.Platform.Interface.{Platform, IsLawful}
use kubeception_operator.Platform.Fetch.{Ending, done, or_done}
use kubeception_operator.Platform.Gets.{Yields-with_secret}
use kubeception_operator.Platform.Yields.{Yields, Yields-pure, Yields-write}
use kubeception_operator.Utils.{beside}
use kubeception_operator.Workloads.{Exists, IsAcceptable, SourcesExist, Exists-write}
use kubeception_operator.KubeControllerManager.{
  container, deployment_spec, mutate_kubeconfig, mutate_deployment, sync, reconcile,
}

-- The Deployment selects its own pods, its volumes have different names, and each mount names one
-- of them.
pub controller_manager_spec-IsAcceptable :
    (kcm : KubeControllerManager) → IsAcceptable (deployment_spec kcm)
unfolding deployment_spec container String_discrete
controller_manager_spec-IsAcceptable kcm = record {
  selects_own = refl;
  distinct_volumes = refl;
  declared_mounts = refl;
}

-- One of the volumes is filled from the Secret.
abbrev pub Mounts : List Volume → String → Type 0
Mounts [] name = ⊥
Mounts (v ∷ vs) name = (v.source ≡ secret name) ⊎ Mounts vs name

-- The Deployment mounts the CA's Secret under the name that the specification gives. The other two
-- Secrets that a run waits for are mounted only where their names are the fixed ones: under another
-- name, which is not that of the kubeconfig or of the CA either, no volume holds them.
pub deployment_spec-ignores_names :
    (kcm : KubeControllerManager)
    → Mounts (deployment_spec kcm).template.spec.volumes kcm.spec.tls.ca
      × ((name : String)
          → name ≢ kcm.spec.tls.ca
          → name ≢ "kube-controller-manager-kubeconfig"
          → name ≢ "kube-controller-manager"
          → name ≢ "service-accounts"
          → ¬ Mounts (deployment_spec kcm).template.spec.volumes name)
unfolding deployment_spec
deployment_spec-ignores_names kcm = (
  inr (inr (inr (inl refl))),
  λ name n1 n2 n3 n4. elim [
    | inl e ↦ n2 (cc e)
    | inr (inl e) ↦ n3 (cc e)
    | inr (inr (inl e)) ↦ n4 (cc e)
    | inr (inr (inr (inl e))) ↦ n1 (cc e)
    | inr (inr (inr (inr e))) ↦ e
  ],
)

module _ (P : Platform) (L : IsLawful P) (req : Key) (kcm : KubeControllerManager) where
  open P use {State, Error, get}

  abbrev Mounted : Ending → State → Type 0
  Mounted a s = a ≡ done → SourcesExist P req (deployment_spec kcm).template.spec.volumes s

  sync-SourcesExist :
      (tls : Obj Kind.secret) (s : State)
      → Exists P Kind.secret (beside req "kube-controller-manager") s
      → Exists P Kind.secret (beside req "service-accounts") s
      → Exists P Kind.secret (beside req kcm.spec.tls.ca) s
      → Yields (sync P req kcm tls) s Mounted
  unfolding sync deployment_spec
  sync-SourcesExist tls s cert accounts ca =
      Yields-write P L Kind.kube_controller_manager kcm.meta Kind.secret
        (fresh Kind.secret req.namespace "kube-controller-manager-kubeconfig")
        (mutate_kubeconfig P kcm tls) _ s
        λ config _ s1 _ _ g1 k1.
          Yields-write P L Kind.kube_controller_manager kcm.meta Kind.deployment
            (fresh Kind.deployment req.namespace "kube-controller-manager") (mutate_deployment kcm)
            _ s1
            λ _ _ s2 _ _ _ k2.
              let keep : (name : String)
                  → Exists P Kind.secret (beside req name) s
                  → Exists P Kind.secret (beside req name) s2 =
                λ name there.
                  let (o, e) =
                    Exists-write P Kind.secret (beside req "kube-controller-manager-kubeconfig")
                      config s s1 g1 k1 Kind.secret (beside req name) there in
                  (o, k2 Kind.secret _ (λ d. cc (d.0)) ∙ e) in
              Yields-pure done s2 λ _. (
                (config, k2 Kind.secret _ (λ e. cc (e.0)) ∙ g1),
                (keep _ cert, (keep _ accounts, (keep _ ca, tt))),
              )

  -- If the specification gives the certificate and the service accounts the fixed names, then a run
  -- that ends without an error and without a requeue leaves a cluster that holds every Secret that
  -- the Deployment mounts.
  pub controller_manager-SourcesExist :
      (s : State)
      → get Kind.kube_controller_manager req s ≡ ok kcm
      → kcm.spec.tls.kube_controller_manager ≡ "kube-controller-manager"
      → kcm.spec.tls.service_accounts_tls ≡ "service-accounts"
      → (reconcile P req s).0 ≡ ok done
      → SourcesExist P req (deployment_spec kcm).template.spec.volumes (reconcile P req s).1
  unfolding reconcile
  controller_manager-SourcesExist s found cert_name accounts_name ended =
      rw (found, or_done)
        ((Yields-with_secret P s _ _
            (λ tls there.
              Yields-with_secret P s _ _
                (λ accounts accounts_there.
                  Yields-with_secret P s _ _
                    (λ ca ca_there.
                      sync-SourcesExist tls s (tls, rw (← cert_name) there)
                        (accounts, rw (← accounts_name) accounts_there) (ca, ca_there))
                    (λ _ h. cc h))
                (λ _ h. cc h))
            (λ _ h. cc h)).holds
          done (rw (found, or_done) at ended) refl)
