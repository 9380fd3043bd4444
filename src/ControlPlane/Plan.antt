-- ===== src/ControlPlane/Plan.antt =====
-- What the control plane's reconciler promises, as a change of a table of objects.
use kubeception_operator.Base.{
  String, ◌≡◌, refl, Result, Fault, ok, none, some, Option, List, [], ◌∷◌,
}
use kubeception_operator.Types.Meta.{Key}
use kubeception_operator.Types.Crd.{ControlPlane, Loadbalancer}
use kubeception_operator.Types.Kinds.{Kind, Spec, Obj}
use kubeception_operator.Types.Kinds.Zero.{fresh}
use kubeception_operator.Platform.Exec.{Exec, ◌>>=◌}
use kubeception_operator.Platform.Interface.{Platform, IsLawful, IsHealthy}
use kubeception_operator.Platform.Owned.{controlled}
use kubeception_operator.Platform.Fetch.{Ending, done}
use kubeception_operator.Platform.View.{
  Write, execute, Plan, on_object, view, Implements, Implements-pure, Implements-write,
  Implements-with_object, written, write, or_initial,
}
use kubeception_operator.Utils.{coalesce_string}
use kubeception_operator.ControlPlane.{
  mutate_loadbalancer, mutate_pki, mutate_kube_api_server, mutate_kube_controller_manager,
  mutate_kube_scheduler, kube_api_server_spec, apply, sync, reconcile,
}
use kubeception_operator.ControlPlane.Children.{pod_labels, mutate_kube_api_server_lem}

module _ (req : Key) (cp : ControlPlane) where
  -- A child with the control plane's own name gets a specification; the rest of it stays.
  abbrev pub child : (k : Kind) → Spec k → Write
  child k spec = record {
    kind = k;
    initial = controlled Kind.control_plane cp.meta k (fresh k req.namespace req.name);
    change = λ o. record o { spec = spec };
  }

  -- The address that the load balancer has, if there is one.
  abbrev pub current_ip : Option Loadbalancer → String
  current_ip none = ""
  current_ip (some lb) = lb.status.ip

  abbrev pub version_of : String → String
  version_of version = coalesce_string (version ∷ cp.spec.version ∷ [])

  abbrev pub pki_child : String → Write
  pki_child ip = child Kind.pki (record cp.spec.pki { control_plane_ip = ip })

  abbrev pub api_server_child : String → Write
  api_server_child ip = child Kind.kube_api_server (record cp.spec.kube_api_server {
    deployment = record cp.spec.kube_api_server.deployment {
      labels = pod_labels cp cp.spec.loadbalancer.selectors;
    };
    options = record cp.spec.kube_api_server.options { advertise_address = ip };
    version = version_of cp.spec.kube_api_server.version;
  })

  abbrev pub controller_manager_child : Write
  controller_manager_child =
      child Kind.kube_controller_manager (record cp.spec.kube_controller_manager {
        version = version_of cp.spec.kube_controller_manager.version;
      })

  abbrev pub scheduler_child : Write
  scheduler_child =
      child Kind.kube_scheduler
        (record cp.spec.kube_scheduler { version = version_of cp.spec.kube_scheduler.version })

  -- The five children, in the order in which they are written.
  abbrev pub children : String → List Write
  children ip =
      child Kind.loadbalancer cp.spec.loadbalancer
      ∷ pki_child ip
      ∷ api_server_child ip
      ∷ controller_manager_child
      ∷ scheduler_child
      ∷ []

  -- What the load balancer's write returns has that address.
  pub current-status :
      (lb : Option Loadbalancer)
      → (or_initial (child Kind.loadbalancer cp.spec.loadbalancer).initial lb).status.ip
        ≡ current_ip lb
  current-status none = refl
  current-status (some lb) = refl

-- The children are kept as the control plane asks, with the address that the load balancer has.
unfoldable pub plan : Key → Plan
unfolding coalesce_string pod_labels
plan req t =
    on_object (t Kind.control_plane req)
      (λ cp t. (done, execute (children req cp (current_ip req cp (t Kind.loadbalancer req))) t)) t

module _ (P : Platform) (L : IsLawful P) (H : IsHealthy P) (req : Key) (cp : ControlPlane) where
  open P use {State, Error}

  module _ (k : Kind) (f : Obj k → Result (Fault Error) (Obj k)) (spec : Spec k)
      (makes : (b : Obj k) → f b ≡ ok (record b { spec = spec })) where
    Implements-child :
        (rest : Plan) (next : Obj k → Exec State Error Ending) (s : State)
        → ((s1 : State)
            → Implements P (next (written (child req cp k spec) (view P s)) s1) (rest (view P s1)))
        → Implements P
            ((apply P cp req k f >>= next) s)
            (rest (write (child req cp k spec) (view P s)))
    unfolding apply
    Implements-child rest =
        Implements-write P L H Kind.control_plane cp.meta k (fresh k req.namespace req.name) f
          (λ o. record o { spec = spec }) makes (λ _. refl) rest

  sync-Implements :
      (s : State)
      → Implements P (sync P req cp s) (
        done,
        execute (children req cp (current_ip req cp (view P s Kind.loadbalancer req))) (view P s),
      )
  unfolding sync execute mutate_loadbalancer mutate_pki mutate_kube_controller_manager
      mutate_kube_scheduler kube_api_server_spec
  sync-Implements s =
      let lb = written (child req cp Kind.loadbalancer cp.spec.loadbalancer) (view P s) in
      let pki = pki_child req cp lb.status.ip in
      let kas = api_server_child req cp lb.status.ip in
      let kcm = controller_manager_child req cp in
      let ks = scheduler_child req cp in
      rw (← current-status req cp (view P s Kind.loadbalancer req)) (
        Implements-child Kind.loadbalancer (mutate_loadbalancer cp) cp.spec.loadbalancer (λ _. refl)
          (λ t. (done, execute (pki ∷ kas ∷ kcm ∷ ks ∷ []) t)) _ s
          λ s1.
            Implements-child Kind.pki (mutate_pki cp lb) _ (λ _. refl)
              (λ t. (done, execute (kas ∷ kcm ∷ ks ∷ []) t)) _ s1
              λ s2.
                Implements-child Kind.kube_api_server (mutate_kube_api_server cp lb) _
                  (mutate_kube_api_server_lem {E = Error} cp lb)
                  (λ t. (done, execute (kcm ∷ ks ∷ []) t)) _ s2
                  λ s3.
                    Implements-child Kind.kube_controller_manager
                      (mutate_kube_controller_manager cp) _ (λ _. refl)
                      (λ t. (done, execute (ks ∷ []) t)) _ s3
                      λ s4.
                        Implements-child Kind.kube_scheduler (mutate_kube_scheduler cp) _
                          (λ _. refl) (λ t. (done, t)) _ s4 λ s5. Implements-pure P done s5)

module _ (P : Platform) (L : IsLawful P) (H : IsHealthy P) (req : Key) where
  -- The reconciler implements the plan, whatever the state.
  pub reconcile-Implements : (s : P.State) → Implements P (reconcile P req s) (plan req (view P s))
  unfolding reconcile plan
  reconcile-Implements s =
      Implements-with_object P L H _ req _ s λ cp _. sync-Implements P L H req cp s
