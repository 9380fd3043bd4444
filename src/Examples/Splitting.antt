-- ===== src/Examples/Splitting.antt =====
-- Runs of the control plane's and the load balancer's reconcilers.
use mathlib.Core.Option.{or_else}
use kubeception_operator.Base.{
  ◌++◌, ◌≡◌, ◌≢◌, refl, String_discrete, ok, err, panic, some, [], ◌∷◌, ◌∙◌,
}
use kubeception_operator.Base.Dict.{find, made, lookup}
use kubeception_operator.Types.Crd.{Pki, KubeApiServer}
use kubeception_operator.Types.Kinds.{Kind, Obj}
use kubeception_operator.Platform.Fetch.{done}
use kubeception_operator.Platform.Memory.{open_memory, open_memory-IsHealthy}
use kubeception_operator.Platform.Yields.{SameObjects}
use kubeception_operator.Utils.{labels, beside}
use kubeception_operator.Utils.Labels.{lookup-labels}
use kubeception_operator.ControlPlane
use kubeception_operator.ControlPlane.Children.{IsSynced, address}
use kubeception_operator.ControlPlane.Footprint.{reconcile_kept, reconcile-ne-panic}
use kubeception_operator.ControlPlane.Runs.{reconcile-IsSynced, reconcile_succeeds, reconcile_twice}
use kubeception_operator.LoadBalancer
use kubeception_operator.LoadBalancer.{service_spec, mutate_service}
use kubeception_operator.LoadBalancer.Publish.{published}
use kubeception_operator.LoadBalancer.Runs.{IsService, load_balancer_publishes, load_balancer_kept}
use kubeception_operator.KubeApiServer.Deployment.{generate_deployment}
use kubeception_operator.Pki.Certificates.{kube_api_server_cert}
use kubeception_operator.Wiring.{Matches, service-selects_pods, certificate-names_address}
use kubeception_operator.Examples.{
  req, cp, lb, fresh_cluster, split_cluster, cp_found, lb_found, lawful,
}

reconcile_succeeds_example :
    ((ControlPlane.reconcile open_memory req fresh_cluster).0 ≡ ok done)
    × IsSynced open_memory req cp fresh_cluster
        (ControlPlane.reconcile open_memory req fresh_cluster).1
reconcile_succeeds_example =
    reconcile_succeeds open_memory lawful req open_memory-IsHealthy cp fresh_cluster cp_found

reconcile-IsSynced_example :
    IsSynced open_memory req cp fresh_cluster
      (ControlPlane.reconcile open_memory req fresh_cluster).1
reconcile-IsSynced_example =
    reconcile-IsSynced open_memory lawful req cp fresh_cluster cp_found (
      (reconcile_succeeds open_memory lawful req open_memory-IsHealthy cp fresh_cluster cp_found).0)

reconcile-ne-panic_example : (ControlPlane.reconcile open_memory req fresh_cluster).0 ≢ err panic
reconcile-ne-panic_example = reconcile-ne-panic open_memory lawful req fresh_cluster

reconcile_kept_example :
    open_memory.get Kind.control_plane req (ControlPlane.reconcile open_memory req fresh_cluster).1
    ≡ open_memory.get Kind.control_plane req fresh_cluster
reconcile_kept_example =
    reconcile_kept open_memory lawful req fresh_cluster Kind.control_plane req (λ h. h.0)

-- The control plane after one run, and again after the second.
still_there :
    open_memory.get Kind.control_plane req (ControlPlane.reconcile open_memory req fresh_cluster).1
    ≡ ok cp
still_there =
    reconcile_kept open_memory lawful req fresh_cluster Kind.control_plane req (λ h. h.0) ∙ cp_found

reconcile_twice_example :
    SameObjects open_memory
      (ControlPlane.reconcile open_memory req fresh_cluster).1
      (ControlPlane.reconcile open_memory req
        (ControlPlane.reconcile open_memory req fresh_cluster).1).1
reconcile_twice_example =
    reconcile_twice open_memory lawful req cp fresh_cluster cp_found
      ((reconcile_succeeds open_memory lawful req open_memory-IsHealthy cp fresh_cluster
        cp_found).0)
      ((reconcile_succeeds open_memory lawful req open_memory-IsHealthy cp _ still_there).0)

abbrev synced :
    IsSynced open_memory req cp fresh_cluster
      (ControlPlane.reconcile open_memory req fresh_cluster).1
synced =
    (reconcile_succeeds open_memory lawful req open_memory-IsHealthy cp fresh_cluster cp_found).1

service-selects_pods_example :
    Matches (service_spec synced.lb).selector (generate_deployment synced.kas).spec.template.labels
unfolding find
service-selects_pods_example =
    service-selects_pods open_memory req cp fresh_cluster _ synced tt (refl, tt) refl

certificate-names_address_example :
    (pki : Pki) × (kas : KubeApiServer) × (open_memory.get Kind.pki req
        (ControlPlane.reconcile open_memory req fresh_cluster).1
      ≡ ok pki)
    × (open_memory.get Kind.kube_api_server req
          (ControlPlane.reconcile open_memory req fresh_cluster).1
        ≡ ok kas)
    × (kas.spec.options.advertise_address
        ≡ address (open_memory.get Kind.loadbalancer req fresh_cluster))
    × ((kube_api_server_cert pki).ip_addresses
        ≡ cp.spec.pki.kube_api_server.ip_addresses ++ kas.spec.options.advertise_address ∷ [])
    × ((kube_api_server_cert pki).dns_names
        ≡ cp.spec.pki.kube_api_server.dns_names ++ kas.spec.options.advertise_address ∷ [])
certificate-names_address_example =
    certificate-names_address open_memory lawful req cp fresh_cluster cp_found (
      (reconcile_succeeds open_memory lawful req open_memory-IsHealthy cp fresh_cluster cp_found).0)

load_balancer_publishes_example :
    ((LoadBalancer.reconcile open_memory req split_cluster).0 ≡ ok done)
    × ((base : Obj Kind.service) × IsService open_memory lawful req lb split_cluster base
        × (open_memory.get Kind.service
              (beside req lb.spec.name)
              (LoadBalancer.reconcile open_memory req split_cluster).1
            ≡ ok (record base { spec = service_spec lb }))
        × (open_memory.get Kind.loadbalancer req
              (LoadBalancer.reconcile open_memory req split_cluster).1
            ≡ ok (published lb base.status.ingress)))
load_balancer_publishes_example =
    load_balancer_publishes open_memory lawful req open_memory-IsHealthy lb split_cluster lb_found

load_balancer_kept_example :
    open_memory.get Kind.pki req (LoadBalancer.reconcile open_memory req split_cluster).1
    ≡ open_memory.get Kind.pki req split_cluster
load_balancer_kept_example =
    load_balancer_kept open_memory lawful req lb split_cluster lb_found Kind.pki req (λ h. cc (h.0))
      (λ h. cc (h.0))

lookup-labels_example :
    lookup "tenant" (labels "kube-apiserver" "blue" (made (("tenant", "blue") ∷ []))) ≡ some "blue"
unfolding find or_else String_discrete
lookup-labels_example =
    lookup-labels "tenant" "kube-apiserver" "blue" (made (("tenant", "blue") ∷ [])) (refl, tt)
