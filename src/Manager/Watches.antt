-- ===== src/Manager/Watches.antt =====
-- Whether a controller hears of changes to what it writes.
use kubeception_operator.Base.{◌≡◌, refl, ◌⊎◌, inl, inr, Result, ok, err, List, [], ◌∷◌, arith}
use kubeception_operator.Types.Meta.{Key}
use kubeception_operator.Types.Kinds.{Kind, Obj}
use kubeception_operator.Platform.Exec.{Exec}
use kubeception_operator.Platform.Interface.{Platform, IsLawful}
use kubeception_operator.Platform.Fetch.{Ending, or_done, with_object}
use kubeception_operator.ControlPlane.Footprint as control_plane_footprint
use kubeception_operator.Pki
use kubeception_operator.Pki.Footprint as pki_footprint
use kubeception_operator.KubeControllerManager
use kubeception_operator.KubeControllerManager.Runs as controller_manager_runs
use kubeception_operator.KubeApiServer
use kubeception_operator.KubeApiServer.Runs as api_server_runs
use kubeception_operator.KubeScheduler
use kubeception_operator.KubeScheduler.Runs as scheduler_runs
use kubeception_operator.LoadBalancer
use kubeception_operator.LoadBalancer.Runs as load_balancer_runs
use kubeception_operator.Manager.{Controller, reconciled, owns, run}

abbrev pub Among : Kind → List Kind → Type 0
Among k [] = ⊥
Among k (l ∷ ls) = (k ≡ l) ⊎ Among k ls

-- The two kinds that are written and not owned.
abbrev pub Unheard : Controller → Kind → Type 0
Unheard Controller.control_plane k = k ≡ Kind.kube_scheduler
Unheard Controller.kube_api_server k = k ≡ Kind.secret
Unheard _ k = ⊥

child_heard :
    (k : Kind)
    → control_plane_footprint.IsChild k
    → Among k (owns Controller.control_plane) ⊎ (k ≡ Kind.kube_scheduler)
unfolding owns
child_heard Kind.pki c = inl (inl refl)
child_heard Kind.kube_api_server c = inl (inr (inl refl))
child_heard Kind.kube_controller_manager c = inl (inr (inr (inl refl)))
child_heard Kind.loadbalancer c = inl (inr (inr (inr (inl refl))))
child_heard Kind.kube_scheduler c = inr refl
child_heard _ c = absurd c

module _ (P : Platform) (req : Key) (k : Kind) (key : Key) (s : P.State) where
  open P use {State, Error, get}

  -- A run that does not find its object writes nothing.
  unless_found :
      (l : Kind) (f : Obj l → Exec State Error Ending)
      → ((o : Obj l) → get l req s ≡ ok o → get k key (with_object P l req f s).1 ≡ get k key s)
      → get k key (with_object P l req f s).1 ≡ get k key s
  unless_found l f kept = split (get l req s) refl
    where
      split :
          (r : Result Error (Obj l)) → get l req s ≡ r → get k key (or_done P r f s).1 ≡ get k key s
      split (ok o) e = rw (e, or_done) at (kept o e)
      split (err c) e = ground arith

module _ (P : Platform) (L : IsLawful P) (req : Key) (k : Kind) (key : Key) (s : P.State) where
  open P use {State, Error, get}

  -- A run touches objects only of the kinds whose changes make its controller run again: the kind
  -- that it reconciles and the kinds that it owns. The exceptions are the schedulers that the
  -- control plane's controller writes and the Secrets that the API server's writes.
  pub run_watched :
      (c : Controller)
      → ¬ (k ≡ reconciled c)
      → ¬ Among k (owns c)
      → ¬ Unheard c k
      → get k key (run P c req s).1 ≡ get k key s
  unfolding reconciled owns run Pki.reconcile KubeControllerManager.reconcile
      KubeApiServer.reconcile KubeScheduler.reconcile LoadBalancer.reconcile
  run_watched Controller.control_plane for_ own unheard =
      control_plane_footprint.reconcile_kept P L req s k key
        (λ same. elim (child_heard k (same.0)) [ inl o ↦ own o | inr u ↦ unheard u ])
  run_watched Controller.pki for_ own unheard = unless_found P req k key s Kind.pki _ λ pki found.
      pki_footprint.pki_kept P L req pki s found k key (elim [
        | inl (inl same) ↦ own (inr (inl (same.0)))
        | inl (inr (inl same)) ↦ own (inl (same.0))
        | inl (inr (inr same)) ↦ own (inr (inr (inl (same.0))))
        | inr same ↦ own (inl (same.0))
      ])
  run_watched Controller.kube_controller_manager for_ own unheard =
      unless_found P req k key s Kind.kube_controller_manager _ λ kcm found.
        controller_manager_runs.controller_manager_kept P L req kcm s found k key
          (λ same. own (inr (inl (same.0)))) (λ same. own (inl (same.0)))
  run_watched Controller.kube_api_server for_ own unheard =
      unless_found P req k key s Kind.kube_api_server _ λ kas found.
        api_server_runs.api_server_kept P L req kas s found k key (λ same. unheard (same.0))
          (λ same. own (inr (inl (same.0)))) (λ same. own (inl (same.0)))
  run_watched Controller.kube_scheduler for_ own unheard =
      unless_found P req k key s Kind.kube_scheduler _ λ ks found.
        scheduler_runs.scheduler_kept P L req ks s found k key (λ same. own (inl (same.0)))
          (λ same. own (inr (inl (same.0))))
  run_watched Controller.loadbalancer for_ own unheard =
      unless_found P req k key s Kind.loadbalancer _ λ lb found.
        load_balancer_runs.load_balancer_kept P L req lb s found k key (λ same. own (inl (same.0)))
          (λ same. for_ (same.0))
