-- ===== src/KubeApiServer/Defers.antt =====
-- Runs of the API server's reconciler that cannot deploy yet.
use kubeception_operator.Base.{String, ◌≡◌, ◌≢◌, refl, ◌∙◌, ok, ◌⊎◌, inl, inr}
use kubeception_operator.Types.Meta.{Key}
use kubeception_operator.Types.Crd.{KubeApiServer}
use kubeception_operator.Types.Core.{Bytes}
use kubeception_operator.Types.Kinds.{Kind, Obj}
use kubeception_operator.Types.Kinds.Zero.{fresh}
use kubeception_operator.Platform.Interface.{Platform, IsLawful, IsHealthy}
use kubeception_operator.Platform.Fetch.{
  Ending, requeue_after, or_done, or_requeue, with_secret, IsMissing,
}
use kubeception_operator.Platform.Gets.{Yields-with_secret}
use kubeception_operator.Platform.Yields.{Yields, Yields-write}
use kubeception_operator.Utils.{beside, generate_kubeconfig, kubeconfig_name}
use kubeception_operator.KubeApiServer.{mutate_kubeconfig, mutate_egress, deploy, sync, reconcile}
use kubeception_operator.KubeApiServer.Runs.{sync-Succeeds}

module _ (P : Platform) (req : Key) (kas : KubeApiServer) where
  open P use {State, Error, get}

  -- A Secret that is missing, under another name than the kubeconfig that the run writes.
  abbrev pub Lacks : String → State → Type 0
  Lacks name s =
      (name ≢ kubeconfig_name kas.spec.tls.konnectivity_secret_name)
      × IsMissing P (beside req name) s

  -- One of the three Secrets that the Deployment mounts is missing.
  abbrev pub LacksMounted : State → Type 0
  LacksMounted s =
      Lacks kas.spec.tls.ca_secret_name s
      ⊎ (Lacks kas.spec.tls.kube_api_server_secret_name s
          ⊎ Lacks kas.spec.tls.service_accounts_secret_name s)

  -- The run waits, and no Deployment has changed since `s`.
  abbrev Deferred : State → Ending → State → Type 0
  Deferred s a s' =
      (a ≡ requeue_after 3) × ((key : Key) → get Kind.deployment key s' ≡ get Kind.deployment key s)

  mounts-Deferred :
      (s s2 : State)
      → ((key : Key) → get Kind.deployment key s2 ≡ get Kind.deployment key s)
      → ((name : String)
          → name ≢ kubeconfig_name kas.spec.tls.konnectivity_secret_name
          → get Kind.secret (beside req name) s2 ≡ get Kind.secret (beside req name) s)
      → LacksMounted s
      → Yields
          (with_secret P (beside req kas.spec.tls.ca_secret_name) λ _.
            with_secret P (beside req kas.spec.tls.kube_api_server_secret_name) λ _.
              with_secret P
                (beside req kas.spec.tls.service_accounts_secret_name)
                λ _. deploy P req kas)
          s2
          (Deferred s)
  mounts-Deferred s s2 same kept (inl (other, (e, missing))) =
      Yields-with_secret P s2 _ _ (λ _ found. cc (kept _ other, missing, found)) (λ _. (refl, same))
  mounts-Deferred s s2 same kept (inr (inl (other, (e, missing)))) =
      Yields-with_secret P s2 _ _
        (λ _ _.
          Yields-with_secret P s2 _ _ (λ _ found. cc (kept _ other, missing, found))
            (λ _. (refl, same)))
        (λ _. (refl, same))
  mounts-Deferred s s2 same kept (inr (inr (other, (e, missing)))) =
      Yields-with_secret P s2 _ _
        (λ _ _.
          Yields-with_secret P s2 _ _
            (λ _ _.
              Yields-with_secret P s2 _ _ (λ _ found. cc (kept _ other, missing, found))
                (λ _. (refl, same)))
            (λ _. (refl, same)))
        (λ _. (refl, same))

module _ (P : Platform) (L : IsLawful P) (req : Key) (kas : KubeApiServer) where
  open P use {State, Error, get}

  sync-Deferred :
      (tls : Obj Kind.secret) (s : State)
      → LacksMounted P req kas s
      → Yields (sync P req kas tls) s (Deferred P req kas s)
  unfolding sync
  sync-Deferred tls s lacks =
      Yields-write P L Kind.kube_api_server kas.meta Kind.secret
        (fresh Kind.secret req.namespace (kubeconfig_name kas.spec.tls.konnectivity_secret_name))
        (mutate_kubeconfig P tls) _ s
        λ _ _ s1 _ _ _ k1.
          Yields-write P L Kind.kube_api_server kas.meta Kind.config_map
            (fresh Kind.config_map req.namespace "konnectivity-egress") mutate_egress _ s1
            λ _ _ s2 _ _ _ k2.
              mounts-Deferred P req kas s s2
                (λ key.
                  k2 Kind.deployment key (λ e. cc (e.0)) ∙ k1 Kind.deployment key (λ e. cc (e.0)))
                (λ name other.
                  k2 Kind.secret (beside req name) (λ e. cc (e.0))
                  ∙ k1 Kind.secret (beside req name) (λ e. let e1 = e.1 in other (cc e1)))
                lacks

  -- On a platform that does not fail, with the konnectivity Secret there and a kubeconfig that can
  -- be generated, but one of the three other Secrets missing, whose name is not the kubeconfig's, a
  -- run asks for another one in three seconds and changes no Deployment.
  pub api_server_defers :
      (tls : Obj Kind.secret) (kubeconfig : Bytes)
      → generate_kubeconfig P tls "https://kube-apiserver:6443" ≡ ok kubeconfig
      → IsHealthy P
      → (s : State) → get Kind.kube_api_server req s ≡ ok kas
      → get Kind.secret (beside req kas.spec.tls.konnectivity_secret_name) s ≡ ok tls
      → LacksMounted P req kas s
      → ((reconcile P req s).0 ≡ ok (requeue_after 3))
        × ((key : Key) → get Kind.deployment key (reconcile P req s).1 ≡ get Kind.deployment key s)
  unfolding reconcile
  api_server_defers tls kubeconfig generates H s found tls_found lacks =
      let (ending, e) = (sync-Succeeds P L req kas tls kubeconfig generates H).result s in
      let (waits, kept) = (sync-Deferred tls s lacks).holds ending e in
      rw (found, or_done) (rw (tls_found, or_requeue) (rw waits at e, kept))
