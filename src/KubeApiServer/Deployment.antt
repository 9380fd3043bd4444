-- ===== src/KubeApiServer/Deployment.antt =====
-- `GenerateDeployment` of internal/controller/kubeapiserver_controller.go.
use kubeception_operator.Base.{String, ◌<>◌, some, none, List, [], ◌∷◌}
use kubeception_operator.Base.Int.{pos, format_int}
use kubeception_operator.Base.Dict.{Dict}
use kubeception_operator.Types.Crd.{KubeApiServer}
use kubeception_operator.Types.Core.{Container, Volume, secret, config_map, empty_dir, http, https}
use kubeception_operator.Types.Kinds.{Kind, Obj}
use kubeception_operator.Utils.{labels, kubeconfig_name}

unfoldable pub konnectivity : KubeApiServer → Container
konnectivity kas = record {
  name = "konnectivity";
  image = "registry.k8s.io/kas-network-proxy/proxy-server:v0.0.37";
  command = "/proxy-server" ∷ [];
  args =
      "--logtostderr=true"
      ∷ "--uds-name=/etc/kubernetes/konnectivity-socket/konnectivity-server.socket"
      ∷ "--delete-existing-uds-file"
      ∷ "--cluster-cert=/etc/kubernetes/tls/tls.crt"
      ∷ "--cluster-key=/etc/kubernetes/tls/tls.key"
      ∷ "--mode=grpc"
      ∷ "--server-port=0"
      ∷ "--agent-namespace=kube-system"
      ∷ "--agent-service-account=konnectivity-agent"
      ∷ "--server-id=$(POD_NAME)"
      ∷ "--server-count"
      ∷ format_int kas.spec.deployment.replicas
      ∷ "--kubeconfig=/etc/kubernetes/konnectivity/kubeconfig.yml"
      ∷ "--authentication-audience=system:konnectivity-server"
      ∷ [];
  env = record { name = "POD_NAME"; field_path = "metadata.name" } ∷ [];
  ports =
      record { name = "grpc"; container_port = pos 8091 }
      ∷ record { name = "admin"; container_port = pos 8095 }
      ∷ record { name = "health"; container_port = pos 8092 }
      ∷ [];
  volume_mounts =
      record { name = "konnectivity-socket"; mount_path = "/etc/kubernetes/konnectivity-socket" }
      ∷ record { name = "konnectivity-kubeconfig"; mount_path = "/etc/kubernetes/konnectivity" }
      ∷ record { name = "kube-apiserver"; mount_path = "/etc/kubernetes/tls" }
      ∷ [];
  liveness_probe = some (record {
    initial_delay_seconds = 10;
    timeout_seconds = 15;
    failure_threshold = 8;
    period_seconds = 10;
    success_threshold = 1;
    http_get = record { port = pos 8092; path = "/healthz"; scheme = http };
  });
  readiness_probe = none;
}

unfoldable pub kube_api_server : KubeApiServer → Container
kube_api_server kas = record {
  name = "kube-apiserver";
  image = "registry.k8s.io/kube-apiserver:" <> kas.spec.version;
  command =
      "/usr/local/bin/kube-apiserver" ∷ "--advertise-address" ∷ kas.spec.options.advertise_address
      ∷ "--allow-privileged" ∷ "--runtime-config" ∷ "api/all=true" ∷ "--service-cluster-ip-range"
      ∷ kas.spec.options.service_cluster_ip_range ∷ "--authorization-mode" ∷ "RBAC,Node"
      ∷ "--client-ca-file" ∷ "/var/lib/kubernetes/tls/kube-apiserver/ca.crt" ∷ "--etcd-servers"
      ∷ kas.spec.etcd_servers ∷ "--service-account-issuer"
      ∷ "https://kubernetes.default.svc.cluster.local" ∷ "--service-account-issuer"
      ∷ "https://kube-apiserver" ∷ "--service-account-key-file"
      ∷ "/var/lib/kubernetes/tls/sa/tls.crt" ∷ "--service-account-signing-key-file"
      ∷ "/var/lib/kubernetes/tls/sa/tls.key" ∷ "--tls-cert-file"
      ∷ "/var/lib/kubernetes/tls/kube-apiserver/tls.crt" ∷ "--tls-private-key-file"
      ∷ "/var/lib/kubernetes/tls/kube-apiserver/tls.key" ∷ "--egress-selector-config-file"
      ∷ "/etc/kubernetes/konnectivity-egress/egress.yaml" ∷ "--enable-bootstrap-token-auth"
      ∷ "--enable-admission-plugins"
      ∷ "NamespaceLifecycle,NodeRestriction,LimitRanger,ServiceAccount,DefaultStorageClass,ResourceQuota"
      ∷ "--kubelet-preferred-address-types" ∷ "ExternalIP,InternalIP,Hostname"
      ∷ "--kubelet-client-certificate" ∷ "/var/lib/kubernetes/tls/kube-apiserver/tls.crt"
      ∷ "--kubelet-client-key" ∷ "/var/lib/kubernetes/tls/kube-apiserver/tls.key"
      ∷ "--requestheader-client-ca-file=/var/lib/kubernetes/tls/kube-apiserver/ca.crt"
      ∷ "--requestheader-allowed-names=front-proxy-client"
      ∷ "--requestheader-extra-headers-prefix=X-Remote-Extra-"
      ∷ "--requestheader-group-headers=X-Remote-Group"
      ∷ "--requestheader-username-headers=X-Remote-User"
      ∷ "--proxy-client-cert-file=/var/lib/kubernetes/tls/kube-apiserver/tls.crt"
      ∷ "--proxy-client-key-file=/var/lib/kubernetes/tls/kube-apiserver/tls.key"
      ∷ "--enable-aggregator-routing=true" ∷ [];
  args = [];
  env = [];
  ports = record { name = "https"; container_port = pos 6443 } ∷ [];
  volume_mounts =
      record { name = "service-accounts"; mount_path = "/var/lib/kubernetes/tls/sa" }
      ∷ record { name = "kube-apiserver"; mount_path = "/var/lib/kubernetes/tls/kube-apiserver" }
      ∷ record { name = "konnectivity-socket"; mount_path = "/etc/kubernetes/konnectivity-socket" }
      ∷ record { name = "konnectivity-egress"; mount_path = "/etc/kubernetes/konnectivity-egress" }
      ∷ [];
  liveness_probe = some (record {
    initial_delay_seconds = 10;
    timeout_seconds = 15;
    failure_threshold = 8;
    period_seconds = 10;
    success_threshold = 0;
    http_get = record { port = pos 6443; path = "/livez"; scheme = https };
  });
  readiness_probe = some (record {
    initial_delay_seconds = 10;
    timeout_seconds = 15;
    failure_threshold = 8;
    period_seconds = 10;
    success_threshold = 0;
    http_get = record { port = pos 6443; path = "/readyz"; scheme = https };
  });
}

abbrev pub own_labels : KubeApiServer → Dict String
own_labels kas = labels "kube-apiserver" kas.meta.key.name kas.spec.deployment.labels

abbrev pub volumes : KubeApiServer → List Volume
volumes kas =
    record { name = "ca"; source = secret kas.spec.tls.ca_secret_name }
    ∷ record {
      name = "service-accounts";
      source = secret kas.spec.tls.service_accounts_secret_name;
    }
    ∷ record { name = "kube-apiserver"; source = secret kas.spec.tls.kube_api_server_secret_name }
    ∷ record { name = "konnectivity-egress"; source = config_map "konnectivity-egress" }
    ∷ record {
      name = "konnectivity-kubeconfig";
      source = secret (kubeconfig_name kas.spec.tls.konnectivity_secret_name);
    }
    ∷ record { name = "konnectivity-socket"; source = empty_dir }
    ∷ []

-- `GenerateDeployment`
unfoldable pub generate_deployment : KubeApiServer → Obj Kind.deployment
unfolding konnectivity kube_api_server
generate_deployment kas = record {
  meta = record {
    key = record { namespace = kas.meta.key.namespace; name = kas.spec.deployment.name };
    labels = own_labels kas;
    controller = none;
  };
  spec = record {
    replicas = some kas.spec.deployment.replicas;
    strategy = some (record { max_unavailable = pos 1 });
    selector = own_labels kas;
    template = record {
      labels = own_labels kas;
      spec = record {
        volumes = volumes kas;
        containers = konnectivity kas ∷ kube_api_server kas ∷ [];
        automount_service_account_token = none;
      };
    };
  };
  status = tt;
}
