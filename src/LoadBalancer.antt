-- ===== src/LoadBalancer.antt =====
-- internal/controller/loadbalancer_controller.go: a load balancer becomes a Service in front of the
-- API server, and its status gets the Service's address.
pub mod Publish
pub mod Runs
pub mod Ends
pub mod Plan
pub mod Settles
use kubeception_operator.Base.{String, Result, ok, err, Fault, error, List, [], ◌∷◌}
use kubeception_operator.Base.Int.{pos}
use kubeception_operator.Base.Dict.{Dict, made, entries, insert_all}
use kubeception_operator.Types.Meta.{Key, Object}
use kubeception_operator.Types.Crd.{Loadbalancer}
use kubeception_operator.Types.Core.{ServiceSpec, ServiceStatus, Ingress, load_balancer, tcp}
use kubeception_operator.Types.Kinds.{Kind, Obj}
use kubeception_operator.Types.Kinds.Zero.{fresh}
use kubeception_operator.Platform.Exec.{Exec, pure, ◌>>=◌}
use kubeception_operator.Platform.Interface.{Platform}
use kubeception_operator.Platform.Fetch.{Ending, done, with_object}
use kubeception_operator.Platform.Owned.{apply_owned}

-- The labels that the Service selects its pods by.
unfoldable pub selector : Dict String → Dict String
selector selectors =
    made (insert_all (entries selectors) (("app.kubernetes.io/name", "kube-apiserver") ∷ []))

unfoldable pub service_spec : Loadbalancer → ServiceSpec
service_spec lb = record {
  service_type = load_balancer;
  ports =
      record { name = "https"; port = lb.spec.port; protocol = tcp; target_port = pos 6443 }
      ∷ record { name = "konnectivity"; port = pos 8091; protocol = tcp; target_port = pos 8091 }
      ∷ [];
  selector = selector lb.spec.selectors;
}

-- The MutateFn of the Service.
unfoldable pub mutate_service :
    {E : Type 0} → Loadbalancer → Obj Kind.service → Result (Fault E) (Obj Kind.service)
mutate_service lb service = ok (record service { spec = service_spec lb })

module _ (P : Platform) where
  open P use {State, Error, update_status}

  -- An error of the status update is logged, and the method returns as it does without one.
  abbrev pub status_updated : Result Error (Unit {0}) → Exec State Error Ending
  status_updated (err e) = pure done
  status_updated (ok _) = pure done

  unfoldable pub publish : Loadbalancer → List Ingress → Exec State Error Ending
  publish lb [] s = pure done s
  publish lb (ingress ∷ _) s =
      let (answer, s1) =
        update_status Kind.loadbalancer (record lb { status = record { ip = ingress.ip } }) s in
      status_updated answer s1

  unfoldable pub sync : Key → Loadbalancer → Exec State Error Ending
  sync req lb = do
    service ←
        apply_owned P Kind.loadbalancer lb.meta Kind.service
          (fresh Kind.service req.namespace lb.spec.name) (mutate_service lb)
    publish lb service.status.ingress

  -- `Reconcile`
  unfoldable pub reconcile : Key → Exec State Error Ending
  reconcile req = with_object P Kind.loadbalancer req (λ lb. sync req lb)
