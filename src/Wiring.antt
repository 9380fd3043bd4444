-- ===== src/Wiring.antt =====
-- Across the control plane, the load balancer and the API server: the Service selects the pods.
use mathlib.Core.Option.{or_else}
use kubeception_operator.Base.{
  ok, ◌≡◌, refl, ap, String, ◌==◌, Option, ◌⊎◌, inl, inr, ◌++◌, Bool-cases, some, none, [], ◌∷◌,
  arith,
}
use kubeception_operator.Base.Dict.{
  Dict, entries, find, lookup, NodupKeys, find-insert_all, insert_all-NodupKeys,
}
use kubeception_operator.Types.Meta.{Key}
use kubeception_operator.Types.Crd.{
  ControlPlane, LoadbalancerSpec, KubeApiServer, KubeApiServerSpec, Pki,
}
use kubeception_operator.Types.Kinds.{Kind}
use kubeception_operator.Platform.Interface.{Platform, IsLawful}
use kubeception_operator.Platform.Fetch.{done}
use kubeception_operator.Utils.{labels}
use kubeception_operator.Utils.Labels.{lookup-labels}
use kubeception_operator.LoadBalancer.{selector, service_spec}
use kubeception_operator.Pki.Certificates.{kube_api_server_cert}
use kubeception_operator.ControlPlane.Children.{pod_labels, address, IsSynced}
use kubeception_operator.ControlPlane
use kubeception_operator.ControlPlane.Runs.{reconcile-IsSynced}
use kubeception_operator.KubeApiServer.Deployment.{generate_deployment}

-- Every label that a selector asks for, with its value.
abbrev pub Matches : Dict String → Dict String → Type 0
Matches wanted given =
    (key value : String) → lookup key wanted ≡ some value → lookup key given ≡ some value

choose :
    {A : Type 0} (a b w g : Option A) (value : A)
    → or_else a w ≡ some value
    → (w ≡ none) ⊎ ((b ≡ none) × (g ≡ w))
    → or_else (or_else a b) g ≡ some value
unfolding or_else
choose (some x) b w g value h c = h
choose none b w g value h (inl n) = cc (n, h)
choose none b w g value h (inr (n, same)) = rw (n, same) h

module _ (cp : ControlPlane) (given : NodupKeys (entries cp.spec.kube_api_server.deployment.labels))
    (selectors : Dict String) (unique : NodupKeys (entries selectors))
    (no_name : lookup "app.kubernetes.io/name" cp.spec.kube_api_server.deployment.labels
      ≡ none) where
  selector-Matches :
      (instance_name : String)
      → Matches
          (selector selectors)
          (labels "kube-apiserver" instance_name (pod_labels cp selectors))
  unfolding selector pod_labels find or_else
  selector-Matches instance_name key value h =
      let wanted =
        find-insert_all key (entries selectors) (("app.kubernetes.io/name", "kube-apiserver") ∷ [])
          unique in
      let own = lookup-labels key "kube-apiserver" instance_name (pod_labels cp selectors) (
        insert_all-NodupKeys (entries selectors) (entries cp.spec.kube_api_server.deployment.labels)
          given) in
      let pod =
        find-insert_all key (entries selectors) (entries cp.spec.kube_api_server.deployment.labels)
          unique in
      rw (own, pod)
        (choose (find key (entries selectors))
          (find key (entries cp.spec.kube_api_server.deployment.labels)) _ _ value (rw wanted at h)
          (elim (Bool-cases (key == "app.kubernetes.io/name")) [
            | inl same ↦
                let e : key ≡ "app.kubernetes.io/name" = ground (arith, same) in
                inr (rw e no_name, rw same refl)
            | inr differ ↦ inl (rw differ refl)
          ]))

-- After a run of the control plane that has left its children as it asks, the Service of its load
-- balancer selects the pods of its API server: each label that the Service asks for is on the
-- pods, with the same value. The control plane's own labels for the API server must not set the
-- name label, and no map lists a key twice.
pub service-selects_pods :
    (P : Platform) (req : Key) (cp : ControlPlane) (before after : P.State)
    → (synced : IsSynced P req cp before after)
    → NodupKeys (entries cp.spec.kube_api_server.deployment.labels)
    → NodupKeys (entries cp.spec.loadbalancer.selectors)
    → lookup "app.kubernetes.io/name" cp.spec.kube_api_server.deployment.labels ≡ none
    → Matches
        (service_spec synced.lb).selector
        (generate_deployment synced.kas).spec.template.labels
unfolding service_spec generate_deployment
service-selects_pods P req cp before after synced given unique no_name =
    let asked = ap (λ (x : LoadbalancerSpec). x.selectors) synced.lb_spec in
    let made_labels = ap (λ (x : KubeApiServerSpec). x.deployment.labels) synced.kas_spec in
    rw (asked, made_labels)
      (selector-Matches cp given cp.spec.loadbalancer.selectors unique no_name
        synced.kas.meta.key.name)

-- A run of the control plane that returns no error, on any lawful platform, leaves an API server
-- that advertises the address that the load balancer had before the run, and a PKI whose
-- certificate for the API server has exactly the IP addresses that the control plane gives and
-- then that address, and exactly the DNS names that it gives and then that address.
pub certificate-names_address :
    (P : Platform)
    → IsLawful P
    → (req : Key) (cp : ControlPlane) (s : P.State) → P.get Kind.control_plane req s ≡ ok cp
    → (ControlPlane.reconcile P req s).0 ≡ ok done
    → (pki : Pki) × (kas : KubeApiServer) × (P.get Kind.pki req (ControlPlane.reconcile P req s).1
        ≡ ok pki)
      × (P.get Kind.kube_api_server req (ControlPlane.reconcile P req s).1 ≡ ok kas)
      × (kas.spec.options.advertise_address ≡ address (P.get Kind.loadbalancer req s))
      × ((kube_api_server_cert pki).ip_addresses
          ≡ cp.spec.pki.kube_api_server.ip_addresses ++ kas.spec.options.advertise_address ∷ [])
      × ((kube_api_server_cert pki).dns_names
          ≡ cp.spec.pki.kube_api_server.dns_names ++ kas.spec.options.advertise_address ∷ [])
unfolding kube_api_server_cert
certificate-names_address P L req cp s found ended =
    let synced = reconcile-IsSynced P L req cp s found ended in
    let advertised = ap (λ (x : KubeApiServerSpec). x.options.advertise_address) synced.kas_spec in
    let asked = synced.pki_spec in
    (
      synced.pki,
      synced.kas,
      synced.pki_stored,
      synced.kas_stored,
      advertised,
      rw (asked, advertised) refl,
      rw (asked, advertised) refl,
    )
