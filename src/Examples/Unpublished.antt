-- ===== src/Examples/Unpublished.antt =====
-- A run of the load balancer's reconciler where every update of a status is refused.
use mathlib.Core.Option.{or_else}
use kubeception_operator.Base.{◌≡◌, refl, false, true, String_discrete, ok, err, ◌⊎◌, [], ◌∷◌}
use kubeception_operator.Types.Kinds.{Kind, Obj}
use kubeception_operator.Types.Kinds.Same.{cast}
use kubeception_operator.Types.Kinds.Zero.{fresh}
use kubeception_operator.Platform.Interface.{Platform, IsLawful}
use kubeception_operator.Platform.Memory.{
  Table, update, memory, memory-IsLawful, settle, store_status, forbidden,
}
use kubeception_operator.Platform.Owned.{apply_owned}
use kubeception_operator.Utils.{beside}
use kubeception_operator.LoadBalancer.{mutate_service, reconcile}
use kubeception_operator.LoadBalancer.Publish.{published}
use kubeception_operator.LoadBalancer.Ends.{service_write, Fails, Finishes, load_balancer_ends}
use kubeception_operator.Examples.{req, lb, split_cluster}

abbrev frozen : Platform
frozen = memory (λ _. false) (λ _. true)

frozen-IsLawful : IsLawful frozen
frozen-IsLawful = memory-IsLawful (λ _. false) (λ _. true)

-- The Service has an address already.
abbrev service : Obj Kind.service
service = record (fresh Kind.service "tenants" "kube-apiserver") {
  status = record { ingress = record { ip = "198.51.100.4" } ∷ [] };
}

abbrev served : Table
served = update Kind.service (beside req "kube-apiserver") service split_cluster

lb_served : frozen.get Kind.loadbalancer req served ≡ ok lb
unfolding update or_else cast String_discrete
lb_served = refl

-- After the write of the Service, the update of the status is refused.
update_refused :
    (frozen.update_status Kind.loadbalancer
      (published lb service.status.ingress)
      (service_write frozen frozen-IsLawful req lb served).1).0
    ≡ err forbidden
unfolding apply_owned mutate_service settle update or_else cast String_discrete store_status
update_refused = refl

load_balancer_ends_example :
    Fails frozen frozen-IsLawful req lb served (reconcile frozen req served)
    ⊎ Finishes frozen frozen-IsLawful req lb served (reconcile frozen req served)
load_balancer_ends_example = load_balancer_ends frozen frozen-IsLawful req lb served lb_served
