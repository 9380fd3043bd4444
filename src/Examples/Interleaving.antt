-- ===== src/Examples/Interleaving.antt =====
-- A run against its plan, and runs of several controllers among each other.
use kubeception_operator.Base.{[], ◌∷◌, ap, inl, inr, ◌≡◌, refl, ◌≢◌, ◌∙◌, none}
use kubeception_operator.Types.Kinds.{Kind, Obj}
use kubeception_operator.Types.Meta.{Key}
use kubeception_operator.Platform.View.{view, stored_in, Implements}
use kubeception_operator.Platform.Memory.{
  Table, update, update_others, get-absent, open_memory, open_memory-IsHealthy,
}
use kubeception_operator.Manager.{Controller, run}
use kubeception_operator.Manager.Plans.{plan, run-Implements}
use kubeception_operator.Workloads.{Exists}
use kubeception_operator.Utils.{beside}
use kubeception_operator.Manager.Liveness.{Component, run_all}
use kubeception_operator.Manager.Tenant.{control_plane_comes_up}
use kubeception_operator.ControlPlane.{reconcile}
use kubeception_operator.Cluster.{Step, Reach}
use kubeception_operator.Cluster.Mounts.{AllMounted}
use kubeception_operator.Cluster.Safety.{Reach-AllMounted}
use kubeception_operator.Examples.{
  req, cp, issued, split_cluster, full_cluster, cp_full, konnectivity_found, ca_found,
  api_server_found, accounts_found, lawful, encoders,
}

run-Implements_example :
    Implements open_memory (run open_memory Controller.kube_scheduler req full_cluster) (
      plan encoders.encode encoders.encode_json Controller.kube_scheduler req
        (view open_memory full_cluster))
run-Implements_example =
    run-Implements open_memory lawful open_memory-IsHealthy encoders Controller.kube_scheduler req
      full_cluster

-- Before the first run there is no Deployment.
unaffected :
    (k : Kind) (at : Key) (o : Obj k) (t : Table) (key : Key)
    → k ≢ Kind.deployment
    → t Kind.deployment key ≡ none
    → update k at o t Kind.deployment key ≡ none
unaffected k at o t key differ absent =
    update_others k at o t Kind.deployment key (λ h. differ (h.0)) ∙ absent

beside_secret :
    (at : Key) (o : Obj Kind.secret) (t : Table) (key : Key)
    → t Kind.deployment key ≡ none
    → update Kind.secret at o t Kind.deployment key ≡ none
beside_secret at o t key = unaffected Kind.secret at o t key (λ e. cc e)

split_without : (key : Key) → split_cluster Kind.deployment key ≡ none
split_without key =
    unaffected _ _ _ _ key (λ e. cc e)
      (unaffected _ _ _ _ key (λ e. cc e)
        (unaffected _ _ _ _ key (λ e. cc e)
          (unaffected _ _ _ _ key (λ e. cc e)
            (unaffected _ _ _ _ key (λ e. cc e) (unaffected _ _ _ _ key (λ e. cc e) (refl))))))

no_deployment : (key : Key) → full_cluster Kind.deployment key ≡ none
no_deployment key = beside_secret _ _ _ key (
    beside_secret _ _ _ key (
      beside_secret _ _ _ key (
        beside_secret _ _ _ key (
          beside_secret _ _ _ key
            (beside_secret _ _ _ key (beside_secret _ _ _ key (split_without key)))))))

no-AllMounted : AllMounted open_memory full_cluster
no-AllMounted key d found =
    cc (get-absent Kind.deployment key full_cluster (no_deployment key), found)

-- The scheduler's controller, then the API server's, then the PKI's.
three_runs :
    Reach open_memory full_cluster
      (run open_memory Controller.pki req
        (run open_memory Controller.kube_api_server req
          (run open_memory Controller.kube_scheduler req full_cluster).1).1).1
three_runs =
    Reach.later
      (Reach.later (Reach.later Reach.start (Step.run_of Controller.kube_scheduler req tt))
        (Step.run_of Controller.kube_api_server req tt))
      (Step.run_of Controller.pki req tt)

Reach-AllMounted_example :
    AllMounted open_memory
      (run open_memory Controller.pki req
        (run open_memory Controller.kube_api_server req
          (run open_memory Controller.kube_scheduler req full_cluster).1).1).1
Reach-AllMounted_example = Reach-AllMounted open_memory lawful no-AllMounted three_runs

-- The control plane's controller runs, then those of the scheduler, the API server and the
-- controller manager: the API server is up.
control_plane_comes_up_example : Exists open_memory Kind.deployment (beside req "kube-apiserver") (
    run_all open_memory lawful open_memory-IsHealthy encoders req
      (Component.scheduler ∷ Component.api_server ∷ Component.controller_manager ∷ [])
      (reconcile open_memory req full_cluster).1)
control_plane_comes_up_example =
    control_plane_comes_up open_memory lawful open_memory-IsHealthy encoders req
      (Component.scheduler ∷ Component.api_server ∷ Component.controller_manager ∷ [])
      Component.api_server cp full_cluster cp_full
      (
        (issued "konnectivity", ap (stored_in open_memory) konnectivity_found),
        (
          (issued "ca", ap (stored_in open_memory) ca_found),
          (
            (issued "kube-apiserver", ap (stored_in open_memory) api_server_found),
            ((issued "service-accounts", ap (stored_in open_memory) accounts_found), tt),
          ),
        ),
      )
      (inr (inl refl))
