-- ===== src/ControlPlane.antt =====
-- internal/controller/controlplane_controller.go: a control plane is split into the five resources
-- that the other reconcilers work on.
pub mod Children
pub mod Footprint
pub mod Runs
pub mod Plan
pub mod Settles
use kubeception_operator.Base.{
  String, Result, ok, err, Fault, panic, List, [], ◌∷◌, Option, none, some,
}
use kubeception_operator.Base.Dict.{Dict, nil, made, entries, assign_all}
use kubeception_operator.Types.Meta.{Key}
use kubeception_operator.Types.Crd.{
  ControlPlane, Loadbalancer, Pki, KubeApiServer, KubeApiServerSpec, KubeControllerManager,
  KubeScheduler,
}
use kubeception_operator.Types.Kinds.{Kind, Obj}
use kubeception_operator.Types.Kinds.Zero.{fresh}
use kubeception_operator.Platform.Exec.{Exec, pure, ◌>>=◌, ◌>>◌}
use kubeception_operator.Platform.Interface.{Platform}
use kubeception_operator.Platform.Fetch.{Ending, done, with_object}
use kubeception_operator.Platform.Owned.{apply_owned}
use kubeception_operator.Utils.{coalesce_string}

-- The MutateFns, one for each resource.
module _ {E : Type 0} (cp : ControlPlane) where
  unfoldable pub mutate_loadbalancer : Loadbalancer → Result (Fault E) Loadbalancer
  mutate_loadbalancer lb = ok (record lb { spec = cp.spec.loadbalancer })

  -- The address comes from the load balancer's status, whatever the control plane says.
  unfoldable pub mutate_pki : Loadbalancer → Pki → Result (Fault E) Pki
  mutate_pki lb pki =
      ok (record pki { spec = record cp.spec.pki { control_plane_ip = lb.status.ip } })

-- `if labels == nil { labels = make(map[string]string) }`
unfoldable pub allocated : Dict String → Dict String
allocated nil = made []
allocated (made l) = made l

-- The API server's specification, once its labels are there.
unfoldable pub kube_api_server_spec : ControlPlane → Loadbalancer → Dict String → KubeApiServerSpec
kube_api_server_spec cp lb pod_labels =
    let spec = cp.spec.kube_api_server in
    record spec {
      deployment = record spec.deployment { labels = pod_labels };
      options = record spec.options { advertise_address = lb.status.ip };
      version = coalesce_string (spec.version ∷ cp.spec.version ∷ []);
    }

module _ {E : Type 0} (cp : ControlPlane) where
  -- A write to a nil map panics.
  abbrev pub with_labels :
      Loadbalancer → KubeApiServer → Option (Dict String) → Result (Fault E) KubeApiServer
  with_labels lb kas none = err panic
  with_labels lb kas (some pod_labels) =
      ok (record kas { spec = kube_api_server_spec cp lb pod_labels })

  -- The load balancer's selectors are written over the control plane's labels.
  unfoldable pub mutate_kube_api_server :
      Loadbalancer → KubeApiServer → Result (Fault E) KubeApiServer
  unfolding allocated kube_api_server_spec
  mutate_kube_api_server lb kas =
      with_labels lb kas (
        assign_all (entries lb.spec.selectors)
          (allocated cp.spec.kube_api_server.deployment.labels))

  unfoldable pub mutate_kube_controller_manager :
      KubeControllerManager → Result (Fault E) KubeControllerManager
  mutate_kube_controller_manager kcm =
      let spec = cp.spec.kube_controller_manager in
      ok (record kcm {
        spec = record spec { version = coalesce_string (spec.version ∷ cp.spec.version ∷ []) };
      })

  unfoldable pub mutate_kube_scheduler : KubeScheduler → Result (Fault E) KubeScheduler
  mutate_kube_scheduler ks =
      let spec = cp.spec.kube_scheduler in
      ok (record ks {
        spec = record spec { version = coalesce_string (spec.version ∷ cp.spec.version ∷ []) };
      })

module _ (P : Platform) where
  open P use {State, Error}

  -- One resource of the control plane, with the control plane's own name and namespace.
  unfoldable pub apply :
      ControlPlane
      → Key
      → (k : Kind) → (Obj k → Result (Fault Error) (Obj k))
      → Exec State Error (Obj k)
  apply cp req k f = apply_owned P Kind.control_plane cp.meta k (fresh k req.namespace req.name) f

  -- The writes, each with the load balancer as the first one left it. A failure ends the run.
  unfoldable pub sync : Key → ControlPlane → Exec State Error Ending
  sync req cp = do
    lb ← apply cp req Kind.loadbalancer (mutate_loadbalancer cp)
    apply cp req Kind.pki (mutate_pki cp lb)
    apply cp req Kind.kube_api_server (mutate_kube_api_server cp lb)
    apply cp req Kind.kube_controller_manager (mutate_kube_controller_manager cp)
    apply cp req Kind.kube_scheduler (mutate_kube_scheduler cp)
    pure done

  -- `Reconcile`
  unfoldable pub reconcile : Key → Exec State Error Ending
  reconcile req = with_object P Kind.control_plane req (λ cp. sync req cp)
