-- ===== src/Manager/Liveness.antt =====
-- The control plane's components come up.
use kubeception_operator.Base.{
  ◌≡◌, refl, sym, ◌∙◌, subst, Result, ok, err, some, List, [], ◌∷◌, ◌⊎◌, inl, inr,
}
use kubeception_operator.Types.Meta.{Key}
use kubeception_operator.Types.Kinds.{Kind, Obj}
use kubeception_operator.Platform.Interface.{Platform, IsLawful, IsHealthy}
use kubeception_operator.Platform.View.{view, stored_in, Encodes}
use kubeception_operator.Platform.Advances.{
  Holds, Advances, Advances-refl, Advances-trans, AllHeld-Advances,
}
use kubeception_operator.Workloads.{Exists}
use kubeception_operator.Manager.{Controller, run}
use kubeception_operator.Manager.Plans.{plan, run-Implements}
use kubeception_operator.Manager.Rollout.{
  scheduler_secrets, controller_manager_secrets, api_server_secrets, SchedulerReady,
  ControllerManagerReady, ApiServerReady, scheduler-Advances, controller_manager-Advances,
  api_server-Advances, scheduler-Deploys, controller_manager-Deploys, api_server-Deploys,
}

-- The three controllers that write Deployments.
pub data Component : Type 0 where
  api_server controller_manager scheduler : Component

abbrev pub controller_of : Component → Controller
controller_of Component.api_server = Controller.kube_api_server
controller_of Component.controller_manager = Controller.kube_controller_manager
controller_of Component.scheduler = Controller.kube_scheduler

module _ (P : Platform) (L : IsLawful P) (H : IsHealthy P) (E : Encodes P) (req : Key) where
  open P use {State, Error, get}

  -- The component is there with all Secrets that it names, and its Deployment has the given key.
  abbrev pub Ready : Component → Key → State → Type 0
  Ready Component.api_server key s = ApiServerReady E.encode req key (view P s)
  Ready Component.controller_manager key s = ControllerManagerReady E.encode req key (view P s)
  Ready Component.scheduler key s = SchedulerReady E.encode E.encode_json req key (view P s)

  abbrev pub step : Component → State → State
  step c s = (run P (controller_of c) req s).1

  -- One run after the other.
  abbrev pub run_all : List Component → State → State
  run_all [] s = s
  run_all (c ∷ cs) s = run_all cs (step c s)

  abbrev pub In : Component → List Component → Type 0
  In c [] = ⊥
  In c (d ∷ ds) = (c ≡ d) ⊎ In c ds

  step-Advances : (c : Component) (s : State) → Advances (view P s) (view P (step c s))
  unfolding plan
  step-Advances Component.api_server s =
      subst (Advances (view P s))
        (sym (run-Implements P L H E Controller.kube_api_server req s).stores)
        (api_server-Advances E.encode req (view P s))
  step-Advances Component.controller_manager s =
      subst (Advances (view P s))
        (sym (run-Implements P L H E Controller.kube_controller_manager req s).stores)
        (controller_manager-Advances E.encode req (view P s))
  step-Advances Component.scheduler s =
      subst (Advances (view P s))
        (sym (run-Implements P L H E Controller.kube_scheduler req s).stores)
        (scheduler-Advances E.encode E.encode_json req (view P s))

  run_all-Advances : (cs : List Component) (s : State) → Advances (view P s) (view P (run_all cs s))
  run_all-Advances [] s = Advances-refl (view P s)
  run_all-Advances (c ∷ cs) s = Advances-trans (step-Advances c s) (run_all-Advances cs (step c s))

  -- What a component needs stays there.
  Ready-step : (c d : Component) (key : Key) (s : State) → Ready c key s → Ready c key (step d s)
  Ready-step Component.api_server d key s (kas, found, is_key, held) =
      let a = step-Advances d s in
      (
        kas,
        a.same Kind.kube_api_server req (λ h. h) ∙ found,
        is_key,
        AllHeld-Advances (api_server_secrets req kas) _ _ a held,
      )
  Ready-step Component.controller_manager d key s (kcm, found, is_key, held) =
      let a = step-Advances d s in
      (
        kcm,
        a.same Kind.kube_controller_manager req (λ h. h) ∙ found,
        is_key,
        AllHeld-Advances (controller_manager_secrets req kcm) _ _ a held,
      )
  Ready-step Component.scheduler d key s (ks, found, is_key, held) =
      let a = step-Advances d s in
      (
        ks,
        a.same Kind.kube_scheduler req (λ h. h) ∙ found,
        is_key,
        AllHeld-Advances (scheduler_secrets req ks) _ _ a held,
      )

  step-Holds :
      (c : Component) (key : Key) (s : State)
      → Ready c key s
      → Holds (view P (step c s)) Kind.deployment key
  unfolding plan
  step-Holds Component.api_server key s ready =
      subst (λ t. Holds t Kind.deployment key)
        (sym (run-Implements P L H E Controller.kube_api_server req s).stores)
        ((api_server-Deploys E.encode req key (view P s) ready).1)
  step-Holds Component.controller_manager key s ready =
      subst (λ t. Holds t Kind.deployment key)
        (sym (run-Implements P L H E Controller.kube_controller_manager req s).stores)
        ((controller_manager-Deploys E.encode req key (view P s) ready).1)
  step-Holds Component.scheduler key s ready =
      subst (λ t. Holds t Kind.deployment key)
        (sym (run-Implements P L H E Controller.kube_scheduler req s).stores)
        ((scheduler-Deploys E.encode E.encode_json req key (view P s) ready).1)

  Holds-Exists : (k : Kind) (key : Key) (s : State) → Holds (view P s) k key → Exists P k key s
  Holds-Exists k key s (o, at) = split (get k key s) refl at
    where
      split :
          (r : Result Error (Obj k)) → get k key s ≡ r → stored_in P r ≡ some o → Exists P k key s
      split (ok x) e h = (x, e)
      split (err x) e h = cc h

  -- On a platform where no call fails and both encoders work, a component that is there, with all
  -- the Secrets that it names, gets its Deployment: after any sequence of runs of the three
  -- components' controllers in which its own is, the Deployment is there. The order of the runs, and
  -- how often each controller runs, does not matter.
  pub bring_up :
      (cs : List Component) (c : Component) (key : Key) (s : State)
      → In c cs
      → Ready c key s
      → Exists P Kind.deployment key (run_all cs s)
  bring_up [] c key s absent ready = absurd absent
  bring_up (d ∷ ds) c key s (inl same) ready =
      Holds-Exists Kind.deployment key (run_all (d ∷ ds) s) (
        (run_all-Advances ds (step d s)).holds Kind.deployment key (
          subst (λ x. Holds (view P (step x s)) Kind.deployment key) same
            (step-Holds c key s ready)))
  bring_up (d ∷ ds) c key s (inr later) ready =
      bring_up ds c key (step d s) later (Ready-step c d key s ready)
