-- ===== src/KubeControllerManager.antt =====
-- internal/controller/kubecontrollermanager_controller.go: a controller manager's kubeconfig and its
-- Deployment.
pub mod Runs
pub mod Mounts
pub mod Plan
pub mod Settles
use kubeception_operator.Base.{
  String, ◌<>◌, Result, ok, err, Fault, false, some, none, List, [], ◌∷◌,
}
use kubeception_operator.Base.Int.{pos}
use kubeception_operator.Base.Dict.{Dict}
use kubeception_operator.Types.Meta.{Key}
use kubeception_operator.Types.Crd.{KubeControllerManager}
use kubeception_operator.Types.Core.{DeploymentSpec, Container, Volume, secret, https}
use kubeception_operator.Types.Kinds.{Kind, Obj}
use kubeception_operator.Types.Kinds.Zero.{fresh}
use kubeception_operator.Platform.Exec.{Exec, pure, ◌>>=◌, ◌>>◌}
use kubeception_operator.Platform.Interface.{Platform}
use kubeception_operator.Platform.Fetch.{Ending, done, with_object, with_secret}
use kubeception_operator.Platform.Owned.{apply_owned}
use kubeception_operator.Utils.{labels, generate_kubeconfig, with_kubeconfig, service_url, beside}

-- The MutateFn of the kubeconfig.
unfoldable pub mutate_kubeconfig :
    (P : Platform)
    → KubeControllerManager
    → Obj Kind.secret
    → Obj Kind.secret
    → Result (Fault P.Error) (Obj Kind.secret)
mutate_kubeconfig P kcm tls kubeconfig =
    with_kubeconfig kubeconfig
      (generate_kubeconfig P tls (service_url kcm.spec.kube_api_server_service))

unfoldable pub container : KubeControllerManager → Container
container kcm = record {
  name = "kube-controller-manager";
  image = "registry.k8s.io/kube-controller-manager:" <> kcm.spec.version;
  command =
      "/usr/local/bin/kube-controller-manager" ∷ "--authentication-skip-lookup" ∷ "--cluster-cidr"
      ∷ "10.200.0.0/16" ∷ "--service-cluster-ip-range" ∷ "10.32.0.0/24" ∷ "--tls-cert-file"
      ∷ "/var/lib/kubernetes/tls/kcm/tls.crt" ∷ "--tls-private-key-file"
      ∷ "/var/lib/kubernetes/tls/kcm/tls.key" ∷ "--kubeconfig"
      ∷ "/var/lib/kubernetes/auth/kubeconfig.yml" ∷ "--authentication-kubeconfig"
      ∷ "/var/lib/kubernetes/auth/kubeconfig.yml" ∷ "--authorization-kubeconfig"
      ∷ "/var/lib/kubernetes/auth/kubeconfig.yml" ∷ "--use-service-account-credentials"
      ∷ "--client-ca-file" ∷ "/var/lib/kubernetes/tls/kcm/ca.crt" ∷ "--root-ca-file"
      ∷ "/var/lib/kubernetes/tls/kcm/ca.crt" ∷ "--service-account-private-key-file"
      ∷ "/var/lib/kubernetes/tls/sa/tls.key" ∷ "--cloud-provider" ∷ "external"
      ∷ "--cluster-signing-cert-file" ∷ "/var/lib/kubernetes/tls/ca/tls.crt"
      ∷ "--cluster-signing-key-file" ∷ "/var/lib/kubernetes/tls/ca/tls.key" ∷ "--controllers"
      ∷ "*,bootstrapsigner,tokencleaner" ∷ [];
  args = [];
  env = [];
  ports = record { name = "https"; container_port = pos 10257 } ∷ [];
  volume_mounts =
      record { name = "kube-controller-manager"; mount_path = "/etc/ssl/certs" }
      ∷ record { name = "kube-controller-manager"; mount_path = "/var/lib/kubernetes/tls/kcm" }
      ∷ record { name = "ca"; mount_path = "/var/lib/kubernetes/tls/ca" }
      ∷ record { name = "kubeconfig"; mount_path = "/var/lib/kubernetes/auth" }
      ∷ record { name = "service-accounts"; mount_path = "/var/lib/kubernetes/tls/sa" }
      ∷ [];
  liveness_probe = some (record {
    initial_delay_seconds = 10;
    timeout_seconds = 15;
    failure_threshold = 8;
    period_seconds = 10;
    success_threshold = 1;
    http_get = record { port = pos 10257; path = "/healthz"; scheme = https };
  });
  readiness_probe = none;
}

abbrev pub own_labels : KubeControllerManager → Dict String
own_labels kcm = labels "kube-controller-manager" kcm.meta.key.name kcm.spec.deployment.labels

-- Two of the Secrets have fixed names, whatever the specification says.
abbrev pub volumes : KubeControllerManager → List Volume
volumes kcm =
    record { name = "kubeconfig"; source = secret "kube-controller-manager-kubeconfig" }
    ∷ record { name = "kube-controller-manager"; source = secret "kube-controller-manager" }
    ∷ record { name = "service-accounts"; source = secret "service-accounts" }
    ∷ record { name = "ca"; source = secret kcm.spec.tls.ca }
    ∷ []

unfoldable pub deployment_spec : KubeControllerManager → DeploymentSpec
unfolding container
deployment_spec kcm = record {
  replicas = some kcm.spec.deployment.replicas;
  strategy = none;
  selector = own_labels kcm;
  template = record {
    labels = own_labels kcm;
    spec = record {
      volumes = volumes kcm;
      containers = container kcm ∷ [];
      automount_service_account_token = some false;
    };
  };
}

-- The MutateFn of the Deployment.
unfoldable pub mutate_deployment :
    {E : Type 0}
    → KubeControllerManager
    → Obj Kind.deployment
    → Result (Fault E) (Obj Kind.deployment)
mutate_deployment kcm d =
    ok (record d { meta = record d.meta { labels = own_labels kcm }; spec = deployment_spec kcm })

module _ (P : Platform) where
  open P use {State, Error}

  unfoldable pub sync : Key → KubeControllerManager → Obj Kind.secret → Exec State Error Ending
  sync req kcm tls = do
    apply_owned P Kind.kube_controller_manager kcm.meta Kind.secret
        (fresh Kind.secret req.namespace "kube-controller-manager-kubeconfig")
        (mutate_kubeconfig P kcm tls)
    apply_owned P Kind.kube_controller_manager kcm.meta Kind.deployment
        (fresh Kind.deployment req.namespace "kube-controller-manager") (mutate_deployment kcm)
    pure done

  -- `Reconcile`: three Secrets have to be there before anything is written.
  unfoldable pub reconcile : Key → Exec State Error Ending
  reconcile req = with_object P Kind.kube_controller_manager req λ kcm.
      with_secret P (beside req kcm.spec.tls.kube_controller_manager) λ tls.
        with_secret P (beside req kcm.spec.tls.service_accounts_tls)
          λ _. with_secret P (beside req kcm.spec.tls.ca) λ _. sync req kcm tls
