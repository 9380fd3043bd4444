-- ===== src/KubeApiServer.antt =====
-- internal/controller/kubeapiserver_controller.go: an API server's konnectivity configuration and its
-- Deployment.
pub mod Deployment
pub mod Runs
pub mod Mounts
pub mod Plan
pub mod Settles
pub mod Defers
use kubeception_operator.Base.{String, ◌<>◌, Result, ok, err, Fault, [], ◌∷◌}
use kubeception_operator.Base.Dict.{made}
use kubeception_operator.Types.Meta.{Key}
use kubeception_operator.Types.Crd.{KubeApiServer}
use kubeception_operator.Types.Kinds.{Kind, Obj}
use kubeception_operator.Types.Kinds.Zero.{fresh}
use kubeception_operator.Platform.Exec.{Exec, pure, ◌>>=◌, ◌>>◌}
use kubeception_operator.Platform.Interface.{Platform}
use kubeception_operator.Platform.Fetch.{Ending, done, with_object, with_secret}
use kubeception_operator.Platform.Owned.{apply_owned}
use kubeception_operator.Utils.{generate_kubeconfig, with_kubeconfig, kubeconfig_name, beside}
use Deployment.{generate_deployment}

-- The MutateFn of the konnectivity server's kubeconfig.
unfoldable pub mutate_kubeconfig :
    (P : Platform) → Obj Kind.secret → Obj Kind.secret → Result (Fault P.Error) (Obj Kind.secret)
mutate_kubeconfig P tls kubeconfig =
    with_kubeconfig kubeconfig (generate_kubeconfig P tls "https://kube-apiserver:6443")

unfoldable pub egress : String
egress =
    "apiVersion: apiserver.k8s.io/v1beta1\n" <> "kind: EgressSelectorConfiguration\n"
    <> "egressSelections:\n"
    <> "# Since we want to control the egress traffic to the cluster, we use the\n"
    <> "# \"cluster\" as the name. Other supported values are \"etcd\", and \"controlplane\".\n"
    <> "- name: cluster\n" <> "  connection:\n"
    <> "    # This controls the protocol between the API Server and the Konnectivity\n"
    <> "    # server. Supported values are \"GRPC\" and \"HTTPConnect\". There is no\n"
    <> "    # end user visible difference between the two modes. You need to set the\n"
    <> "    # Konnectivity server to work in the same mode.\n" <> "    proxyProtocol: GRPC\n"
    <> "    transport:\n"
    <> "      # This controls what transport the API Server uses to communicate with the\n"
    <> "      # Konnectivity server. UDS is recommended if the Konnectivity server\n"
    <> "      # locates on the same machine as the API Server. You need to configure the\n"
    <> "      # Konnectivity server to listen on the same UDS socket.\n"
    <> "      # The other supported transport is \"tcp\". You will need to set up TLS\n"
    <> "      # config to secure the TCP transport.\n" <> "      uds:\n"
    <> "        udsName: /etc/kubernetes/konnectivity-socket/konnectivity-server.socket\n"

-- The MutateFn of the egress configuration.
unfoldable pub mutate_egress :
    {E : Type 0} → Obj Kind.config_map → Result (Fault E) (Obj Kind.config_map)
mutate_egress o = ok (record o { spec = made (("egress.yaml", egress) ∷ []) })

-- The MutateFn of the Deployment: its labels and its specification are generated.
unfoldable pub mutate_deployment :
    {E : Type 0} → KubeApiServer → Obj Kind.deployment → Result (Fault E) (Obj Kind.deployment)
mutate_deployment kas d =
    let deployment = generate_deployment kas in
    ok (record d {
      meta = record d.meta { labels = deployment.meta.labels };
      spec = deployment.spec;
    })

module _ (P : Platform) where
  open P use {State, Error}

  -- Once the three Secrets are there that the Deployment mounts.
  unfoldable pub deploy : Key → KubeApiServer → Exec State Error Ending
  deploy req kas = do
    apply_owned P Kind.kube_api_server kas.meta Kind.deployment
        (fresh Kind.deployment req.namespace kas.spec.deployment.name) (mutate_deployment kas)
    pure done

  unfoldable pub sync : Key → KubeApiServer → Obj Kind.secret → Exec State Error Ending
  sync req kas tls = do
    apply_owned P Kind.kube_api_server kas.meta Kind.secret
        (fresh Kind.secret req.namespace (kubeconfig_name kas.spec.tls.konnectivity_secret_name))
        (mutate_kubeconfig P tls)
    apply_owned P Kind.kube_api_server kas.meta Kind.config_map
        (fresh Kind.config_map req.namespace "konnectivity-egress") mutate_egress
    with_secret P (beside req kas.spec.tls.ca_secret_name) λ _.
        with_secret P (beside req kas.spec.tls.kube_api_server_secret_name) λ _.
          with_secret P (beside req kas.spec.tls.service_accounts_secret_name) λ _. deploy req kas

  -- `Reconcile`
  unfoldable pub reconcile : Key → Exec State Error Ending
  reconcile req = with_object P Kind.kube_api_server req λ kas.
      with_secret P (beside req kas.spec.tls.konnectivity_secret_name) λ tls. sync req kas tls
