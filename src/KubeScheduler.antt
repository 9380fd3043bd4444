-- ===== src/KubeScheduler.antt =====
-- internal/controller/kubescheduler_controller.go: a scheduler's configuration and its Deployment.
pub mod Runs
pub mod Mounts
pub mod Plan
pub mod Settles
use kubeception_operator.Base.{
  String, ◌<>◌, Result, ok, err, Fault, lift, false, some, none, List, [], ◌∷◌,
}
use kubeception_operator.Base.Int.{pos, format_uint}
use kubeception_operator.Base.Dict.{Dict, made}
use kubeception_operator.Types.Meta.{Key, Object}
use kubeception_operator.Types.Crd.{KubeScheduler, Service}
use kubeception_operator.Types.Core.{Bytes, SecretData, DeploymentSpec, Container, secret, https}
use kubeception_operator.Types.Kinds.{Kind, Obj}
use kubeception_operator.Types.Kinds.Zero.{fresh}
use kubeception_operator.Platform.Exec.{Exec, pure, ◌>>=◌, ◌>>◌}
use kubeception_operator.Platform.Interface.{Platform, SchedulerConfiguration}
use kubeception_operator.Platform.Fetch.{Ending, done, with_object, with_secret}
use kubeception_operator.Platform.Owned.{apply_owned}
use kubeception_operator.Utils.{labels, generate_kubeconfig, service_url, beside}

abbrev pub configuration : SchedulerConfiguration
configuration = record {
  api_version = "kubescheduler.config.k8s.io/v1";
  kind = "KubeSchedulerConfiguration";
  kubeconfig = "/var/lib/kubernetes/auth/kubeconfig.yml";
}

-- What the two encoders give: the first that fails ends the MutateFn.
abbrev pub with_config :
    {E : Type 0}
    → Obj Kind.secret
    → Result E Bytes
    → Result E Bytes
    → Result (Fault E) (Obj Kind.secret)
with_config config (err e) _ = lift (err e)
with_config config (ok json) (err e) = lift (err e)
with_config config (ok json) (ok k) =
    ok (record config { spec = made (("kubeconfig.yml", k) ∷ ("config.json", json) ∷ []) })

-- The MutateFn of the configuration.
unfoldable pub mutate_config :
    (P : Platform)
    → KubeScheduler
    → Obj Kind.secret
    → Obj Kind.secret
    → Result (Fault P.Error) (Obj Kind.secret)
mutate_config P ks tls config =
    with_config config (P.marshal configuration)
      (generate_kubeconfig P tls (service_url ks.spec.kube_api_server_service))

unfoldable pub container : KubeScheduler → Container
container ks = record {
  name = "kube-scheduler";
  image = "registry.k8s.io/kube-scheduler:" <> ks.spec.version;
  command =
      "/usr/local/bin/kube-scheduler" ∷ "--config" ∷ "/var/lib/kubernetes/auth/config.json"
      ∷ "--authentication-skip-lookup" ∷ "--authentication-kubeconfig"
      ∷ "/var/lib/kubernetes/auth/kubeconfig.yml" ∷ "--authorization-kubeconfig"
      ∷ "/var/lib/kubernetes/auth/kubeconfig.yml" ∷ "--tls-cert-file"
      ∷ "/var/lib/kubernetes/tls/ks/tls.crt" ∷ "--tls-private-key-file"
      ∷ "/var/lib/kubernetes/tls/ks/tls.key" ∷ "--client-ca-file"
      ∷ "/var/lib/kubernetes/tls/ks/ca.crt" ∷ [];
  args = [];
  env = [];
  ports = record { name = "https"; container_port = pos 10259 } ∷ [];
  volume_mounts =
      record { name = "kube-scheduler"; mount_path = "/etc/ssl/certs" }
      ∷ record { name = "kube-scheduler"; mount_path = "/var/lib/kubernetes/tls/ks" }
      ∷ record { name = "kubeconfig"; mount_path = "/var/lib/kubernetes/auth" }
      ∷ [];
  liveness_probe = some (record {
    initial_delay_seconds = 10;
    timeout_seconds = 15;
    failure_threshold = 8;
    period_seconds = 10;
    success_threshold = 1;
    http_get = record { port = pos 10259; path = "/healthz"; scheme = https };
  });
  readiness_probe = none;
}

-- The labels leave out the ones that the specification gives.
abbrev pub own_labels : KubeScheduler → Dict String
own_labels ks = labels "kube-scheduler" ks.meta.key.name (made [])

unfoldable pub deployment_spec : KubeScheduler → DeploymentSpec
unfolding container
deployment_spec ks = record {
  replicas = some ks.spec.deployment.replicas;
  strategy = none;
  selector = own_labels ks;
  template = record {
    labels = own_labels ks;
    spec = record {
      volumes =
          record { name = "kubeconfig"; source = secret "kube-scheduler-config" }
          ∷ record { name = "kube-scheduler"; source = secret ks.spec.kube_scheduler_tls }
          ∷ [];
      containers = container ks ∷ [];
      automount_service_account_token = some false;
    };
  };
}

-- The MutateFn of the Deployment.
unfoldable pub mutate_deployment :
    {E : Type 0} → KubeScheduler → Obj Kind.deployment → Result (Fault E) (Obj Kind.deployment)
mutate_deployment ks d =
    ok (record d { meta = record d.meta { labels = own_labels ks }; spec = deployment_spec ks })

module _ (P : Platform) where
  open P use {State, Error}

  unfoldable pub sync : Key → KubeScheduler → Obj Kind.secret → Exec State Error Ending
  sync req ks tls = do
    apply_owned P Kind.kube_scheduler ks.meta Kind.secret
        (fresh Kind.secret req.namespace "kube-scheduler-config") (mutate_config P ks tls)
    apply_owned P Kind.kube_scheduler ks.meta Kind.deployment
        (fresh Kind.deployment req.namespace "kube-scheduler") (mutate_deployment ks)
    pure done

  -- `Reconcile`
  unfoldable pub reconcile : Key → Exec State Error Ending
  reconcile req =
      with_object P Kind.kube_scheduler req
        λ ks. with_secret P (beside req ks.spec.kube_scheduler_tls) λ tls. sync req ks tls
