-- ===== src/KubeControllerManager/Runs.antt =====
-- Whole runs of the controller manager's reconciler.
use kubeception_operator.Base.{◌≡◌, refl, ap, ◌∙◌, ok, ◌⊎◌, inl, inr, arith}
use kubeception_operator.Types.Meta.{Key}
use kubeception_operator.Types.Crd.{KubeControllerManager}
use kubeception_operator.Types.Core.{Bytes}
use kubeception_operator.Types.Kinds.{Kind, Obj}
use kubeception_operator.Types.Kinds.Zero.{fresh}
use kubeception_operator.Platform.Interface.{Platform, IsLawful, IsHealthy}
use kubeception_operator.Platform.Fetch.{
  done, requeue_after, or_done, or_requeue, with_secret, IsMissing,
}
use kubeception_operator.Platform.Gets.{with_secret_waits, with_secret_passes}
use kubeception_operator.Platform.Yields.{Yields, Yields-pure, Yields-write}
use kubeception_operator.Platform.Healthy.{
  Succeeds, Succeeds-pure, Succeeds-bind, Succeeds-apply_owned,
}
use kubeception_operator.Platform.Effects.{
  Touches, Touches-pure, Touches-bind, Touches-or_requeue, Touches-apply_owned,
}
use kubeception_operator.Utils.{beside, generate_kubeconfig, service_url, kubeconfig_data}
use kubeception_operator.KubeControllerManager.{
  mutate_kubeconfig, own_labels, deployment_spec, mutate_deployment, sync, reconcile,
}

module _ (P : Platform) (req : Key) (kcm : KubeControllerManager) (s : P.State) where
  open P use {State, Error, get}

  -- One of the three Secrets that the Deployment needs is missing.
  abbrev pub LacksSecret : Type 0
  LacksSecret =
      IsMissing P (beside req kcm.spec.tls.kube_controller_manager) s
      ⊎ (IsMissing P (beside req kcm.spec.tls.service_accounts_tls) s
          ⊎ IsMissing P (beside req kcm.spec.tls.ca) s)

  waits_for :
      LacksSecret
      → (with_secret P (beside req kcm.spec.tls.kube_controller_manager) λ tls.
            with_secret P
              (beside req kcm.spec.tls.service_accounts_tls)
              λ _. with_secret P (beside req kcm.spec.tls.ca) λ _. sync P req kcm tls)
          s
        ≡ (ok (requeue_after 3), s)
  waits_for (inl missing) = with_secret_waits P s _ _ missing
  waits_for (inr (inl missing)) =
      with_secret_passes P s _ _ (λ _. with_secret_waits P s _ _ missing)
  waits_for (inr (inr missing)) =
      with_secret_passes P s _ _
        (λ _. with_secret_passes P s _ _ (λ _. with_secret_waits P s _ _ missing))

  -- While one of the three Secrets is missing, a run writes nothing and asks for another one in
  -- three seconds.
  pub controller_manager_waits :
      get Kind.kube_controller_manager req s ≡ ok kcm
      → LacksSecret
      → reconcile P req s ≡ (ok (requeue_after 3), s)
  unfolding reconcile
  controller_manager_waits found lacks = rw (found, or_done) (waits_for lacks)

module _ (P : Platform) (req : Key) (kcm : KubeControllerManager) where
  open P use {State, get}

  -- The kubeconfig and the Deployment are as the specification says.
  pub record IsDeployed (kubeconfig : Bytes) (s : State) : Type 0 where
    pub secret : Obj Kind.secret
    pub secret_stored :
        get Kind.secret (beside req "kube-controller-manager-kubeconfig") s ≡ ok secret
    pub secret_data : secret.spec ≡ kubeconfig_data kubeconfig
    pub deployment : Obj Kind.deployment
    pub deployment_stored :
        get Kind.deployment (beside req "kube-controller-manager") s ≡ ok deployment
    pub deployment_labels : deployment.meta.labels ≡ own_labels kcm
    pub deployment_spec_is : deployment.spec ≡ deployment_spec kcm

module _ (P : Platform) (L : IsLawful P) (req : Key) (kcm : KubeControllerManager) where
  open P use {State, Error, get}

  module _ (tls : Obj Kind.secret) (kubeconfig : Bytes)
      (generates : generate_kubeconfig P tls (service_url kcm.spec.kube_api_server_service)
        ≡ ok kubeconfig) where
    mutate_kubeconfig_lem :
        (o : Obj Kind.secret)
        → mutate_kubeconfig P kcm tls o ≡ ok (record o { spec = kubeconfig_data kubeconfig })
    unfolding mutate_kubeconfig
    mutate_kubeconfig_lem o = rw generates

    sync-IsDeployed :
        (s : State)
        → Yields (sync P req kcm tls) s (λ a s'. (a ≡ done) × IsDeployed P req kcm kubeconfig s')
    unfolding sync mutate_deployment
    sync-IsDeployed s =
        Yields-write P L Kind.kube_controller_manager kcm.meta Kind.secret
          (fresh Kind.secret req.namespace "kube-controller-manager-kubeconfig")
          (mutate_kubeconfig P kcm tls) _ s
          λ secret b1 s1 _ m1 g1 _.
            Yields-write P L Kind.kube_controller_manager kcm.meta Kind.deployment
              (fresh Kind.deployment req.namespace "kube-controller-manager")
              (mutate_deployment kcm) _ s1
              λ d b2 s2 _ m2 g2 k2.
                let made_secret : secret ≡ record b1 { spec = kubeconfig_data kubeconfig } =
                  cc (mutate_kubeconfig_lem b1, m1) in
                Yields-pure done s2 (
                  refl,
                  record {
                    secret = secret;
                    secret_stored =
                        k2 Kind.secret (beside req "kube-controller-manager-kubeconfig")
                          (λ e. cc (e.0))
                        ∙ g1;
                    secret_data = ap (λ (x : Obj Kind.secret). x.spec) made_secret;
                    deployment = d;
                    deployment_stored = g2;
                    deployment_labels = ground (arith, m2);
                    deployment_spec_is = ground (arith, m2);
                  },
                )

    sync-Succeeds : IsHealthy P → Succeeds (sync P req kcm tls)
    unfolding sync mutate_deployment
    sync-Succeeds H =
        Succeeds-bind _ _
          (Succeeds-apply_owned P L H Kind.kube_controller_manager kcm.meta Kind.secret
            (fresh Kind.secret req.namespace "kube-controller-manager-kubeconfig")
            (mutate_kubeconfig P kcm tls) (λ b. (_, mutate_kubeconfig_lem b, refl)))
          λ _.
            Succeeds-bind _ _
              (Succeeds-apply_owned P L H Kind.kube_controller_manager kcm.meta Kind.deployment
                (fresh Kind.deployment req.namespace "kube-controller-manager")
                (mutate_deployment kcm) (λ b. (_, refl, refl)))
              λ _. Succeeds-pure done

    -- On a platform that does not fail, with the three Secrets there and a kubeconfig that can be
    -- generated, a run ends without an error and leaves the kubeconfig and the Deployment.
    pub controller_manager_deploys :
        IsHealthy P
        → (s : State) (accounts ca : Obj Kind.secret)
        → get Kind.kube_controller_manager req s ≡ ok kcm
        → get Kind.secret (beside req kcm.spec.tls.kube_controller_manager) s ≡ ok tls
        → get Kind.secret (beside req kcm.spec.tls.service_accounts_tls) s ≡ ok accounts
        → get Kind.secret (beside req kcm.spec.tls.ca) s ≡ ok ca
        → ((reconcile P req s).0 ≡ ok done) × IsDeployed P req kcm kubeconfig (reconcile P req s).1
    unfolding reconcile
    controller_manager_deploys H s accounts ca found tls_found accounts_found ca_found =
        let (ending, e) = (sync-Succeeds H).result s in
        let (is_done, deployed) = (sync-IsDeployed s).holds ending e in
        rw (found, or_done)
          (rw (tls_found, or_requeue)
            (rw (accounts_found, or_requeue)
              (rw (ca_found, or_requeue) (rw is_done at e, deployed))))

  Own : Kind → Key → Type 0
  Own k key =
      ((k ≡ Kind.secret) × (key ≡ beside req "kube-controller-manager-kubeconfig"))
      ⊎ ((k ≡ Kind.deployment) × (key ≡ beside req "kube-controller-manager"))

  sync-Touches : (tls : Obj Kind.secret) → Touches P Own (sync P req kcm tls)
  unfolding sync Own
  sync-Touches tls =
      Touches-bind _ _
        (Touches-apply_owned L Kind.kube_controller_manager kcm.meta Kind.secret
          (fresh Kind.secret req.namespace "kube-controller-manager-kubeconfig")
          (mutate_kubeconfig P kcm tls) (inl (refl, refl)))
        λ _.
          Touches-bind _ _
            (Touches-apply_owned L Kind.kube_controller_manager kcm.meta Kind.deployment
              (fresh Kind.deployment req.namespace "kube-controller-manager")
              (mutate_deployment kcm) (inr (refl, refl)))
            λ _. Touches-pure done

  -- However a run ends, it has left alone every object but its kubeconfig and its Deployment.
  pub controller_manager_kept :
      (s : State)
      → get Kind.kube_controller_manager req s ≡ ok kcm
      → (k : Kind) (key : Key)
      → ¬ ((k ≡ Kind.secret) × (key ≡ beside req "kube-controller-manager-kubeconfig"))
      → ¬ ((k ≡ Kind.deployment) × (key ≡ beside req "kube-controller-manager"))
      → get k key (reconcile P req s).1 ≡ get k key s
  unfolding reconcile Own
  controller_manager_kept s found k key no_secret no_deployment =
      rw (found, or_done)
        ((Touches-or_requeue (get Kind.secret (beside req kcm.spec.tls.kube_controller_manager)) _
            (λ tls.
              Touches-or_requeue (get Kind.secret (beside req kcm.spec.tls.service_accounts_tls)) _
                (λ _.
                  Touches-or_requeue (get Kind.secret (beside req kcm.spec.tls.ca)) _
                    (λ _. sync-Touches tls)))).kept
          s k key (elim [ inl same ↦ no_secret same | inr same ↦ no_deployment same ]))
