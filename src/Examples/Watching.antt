-- ===== src/Examples/Watching.antt =====
-- Which runs touch what.
use kubeception_operator.Base.{◌≡◌, inl, inr}
use kubeception_operator.Types.Kinds.{Kind}
use kubeception_operator.Platform.Memory.{open_memory}
use kubeception_operator.Manager.{Controller, reconciled, owns, run}
use kubeception_operator.Manager.Watches.{run_watched}
use kubeception_operator.Examples.{req, full_cluster, lawful}

-- No run of the PKI's controller touches a Deployment.
run_watched_example :
    open_memory.get Kind.deployment req (run open_memory Controller.pki req full_cluster).1
    ≡ open_memory.get Kind.deployment req full_cluster
unfolding reconciled owns
run_watched_example =
    run_watched open_memory lawful req Kind.deployment req full_cluster Controller.pki (λ e. cc e)
      (elim [
        | inl e ↦ cc e
        | inr (inl e) ↦ cc e
        | inr (inr (inl e)) ↦ cc e
        | inr (inr (inr e)) ↦ e
      ])
      (λ h. h)
