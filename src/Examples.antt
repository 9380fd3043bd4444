-- ===== src/Examples.antt =====
-- A cluster with one control plane, for the examples.
mod Unpublished
mod Unaddressed
pub mod Splitting
pub mod Components
pub mod Certificates
pub mod Watching
pub mod Starting
pub mod Interleaving
pub mod Copying
use mathlib.Core.Option.{or_else}
use kubeception_operator.Base.{
  String, String_discrete, ◌≡◌, refl, ok, err, Result, false, List, [], ◌∷◌, ◌++◌,
}
use kubeception_operator.Base.Int.{pos}
use kubeception_operator.Base.{arith}
use kubeception_operator.Base.Dict.{made, nil, find}
use kubeception_operator.Types.Meta.{Key, named, ObjectMeta}
use kubeception_operator.Types.Crd.{
  ControlPlane, ControlPlaneSpec, Loadbalancer, Pki, KubeApiServer, KubeControllerManager,
  KubeScheduler, Deployment, Service,
}
use kubeception_operator.Types.Kinds.{Kind, Obj}
use kubeception_operator.Types.Kinds.Same.{cast}
use kubeception_operator.Platform.Fetch.{IsMissing}
use kubeception_operator.Platform.Interface.{IsLawful}
use kubeception_operator.Platform.View.{Encodes}
use kubeception_operator.Platform.Memory.{
  memory-IsLawful, Table, Failure, not_found, empty, update, open_memory,
}
use kubeception_operator.Utils.{generate_kubeconfig, kubeconfig_of}

abbrev pub req : Key
req = record { namespace = "tenants"; name = "blue" }

abbrev pub meta : ObjectMeta
meta = named "tenants" "blue"

abbrev pub three : String → Deployment
three name = record { name = name; replicas = pos 3; labels = nil }

abbrev pub cp_spec : ControlPlaneSpec
cp_spec = record {
  version = "v1.26.0";
  loadbalancer = record {
    name = "kube-apiserver";
    port = pos 6443;
    selectors = made (("tenant", "blue") ∷ []);
  };
  pki = record {
    name = "root";
    control_plane_ip = "";
    ca = record { name = "ca" };
    service_accounts = record { name = "service-accounts" };
    admin = record { name = "admin" };
    kube_api_server = record {
      name = "kube-apiserver";
      ip_addresses = "10.32.0.1" ∷ [];
      dns_names = [];
    };
    kube_controller_manager = record { name = "kube-controller-manager" };
    kube_scheduler = record { name = "kube-scheduler" };
    konnectivity = record { name = "konnectivity" };
  };
  kube_api_server = record {
    version = "";
    etcd_servers = "http://etcd:2379";
    deployment = three "kube-apiserver";
    tls = record {
      ca_secret_name = "ca";
      kube_api_server_secret_name = "kube-apiserver";
      service_accounts_secret_name = "service-accounts";
      konnectivity_secret_name = "konnectivity";
    };
    options = record { advertise_address = ""; service_cluster_ip_range = "10.32.0.0/24" };
  };
  kube_controller_manager = record {
    version = "";
    tls = record {
      ca = "ca";
      kube_controller_manager = "kube-controller-manager";
      service_accounts_tls = "service-accounts";
    };
    deployment = three "";
    kube_api_server_service = record { name = "kube-apiserver"; port = 6443 };
  };
  kube_scheduler = record {
    version = "v1.25.0";
    kube_api_server_service = record { name = "kube-apiserver"; port = 6443 };
    kube_scheduler_tls = "kube-scheduler";
    deployment = three "";
  };
}

abbrev pub cp : ControlPlane
cp = record { meta = meta; spec = cp_spec; status = record { status = "" } }

abbrev pub lb : Loadbalancer
lb = record { meta = meta; spec = cp_spec.loadbalancer; status = record { ip = "192.0.2.7" } }

abbrev pub pki : Pki
pki = record {
  meta = meta;
  spec = record cp_spec.pki { control_plane_ip = "192.0.2.7" };
  status = record { ready = false };
}

abbrev pub kas : KubeApiServer
kas = record { meta = meta; spec = cp_spec.kube_api_server; status = tt }

abbrev pub kcm : KubeControllerManager
kcm = record { meta = meta; spec = cp_spec.kube_controller_manager; status = tt }

abbrev pub ks : KubeScheduler
ks = record { meta = meta; spec = cp_spec.kube_scheduler; status = tt }

-- A Secret as cert-manager issues it.
abbrev pub issued : String → Obj Kind.secret
issued name = record {
  meta = named "tenants" name;
  spec = made (("tls.crt", 1 ∷ []) ∷ ("tls.key", 2 ∷ []) ∷ ("ca.crt", 3 ∷ []) ∷ []);
  status = tt;
}

abbrev pub with_secret : String → Table → Table
with_secret name s =
    update Kind.secret (record { namespace = "tenants"; name = name }) (issued name) s

-- The control plane alone, with a load balancer that has an address.
abbrev pub fresh_cluster : Table
fresh_cluster = update Kind.control_plane req cp (update Kind.loadbalancer req lb empty)

-- The resources that the control plane is split into, without any Secret.
abbrev pub split_cluster : Table
split_cluster = update Kind.pki req pki (
    update Kind.kube_api_server req kas (
      update Kind.kube_controller_manager req kcm
        (update Kind.kube_scheduler req ks fresh_cluster)))

-- The same with every Secret.
abbrev pub full_cluster : Table
full_cluster = with_secret "ca" (
    with_secret "service-accounts" (
      with_secret "admin" (
        with_secret "kube-apiserver" (
          with_secret "kube-controller-manager"
            (with_secret "kube-scheduler" (with_secret "konnectivity" split_cluster))))))

-- What the cluster holds.
pub cp_found : open_memory.get Kind.control_plane req fresh_cluster ≡ ok cp
unfolding update or_else cast String_discrete
cp_found = refl

pub lb_found : open_memory.get Kind.loadbalancer req split_cluster ≡ ok lb
unfolding update or_else cast String_discrete
lb_found = refl

pub pki_found : open_memory.get Kind.pki req split_cluster ≡ ok pki
unfolding update or_else cast String_discrete
pki_found = refl

pub kas_found : open_memory.get Kind.kube_api_server req split_cluster ≡ ok kas
unfolding update or_else cast String_discrete
kas_found = refl

pub kcm_found : open_memory.get Kind.kube_controller_manager req split_cluster ≡ ok kcm
unfolding update or_else cast String_discrete
kcm_found = refl

pub ks_found : open_memory.get Kind.kube_scheduler req split_cluster ≡ ok ks
unfolding update or_else cast String_discrete
ks_found = refl

-- Before cert-manager has issued anything, every Secret is missing.
pub secret-IsMissing : (key : Key) → IsMissing open_memory key split_cluster
unfolding update or_else cast String_discrete
secret-IsMissing key = (not_found, ground arith)

-- The resources are still there beside the Secrets.
pub pki_full : open_memory.get Kind.pki req full_cluster ≡ ok pki
unfolding update or_else cast String_discrete
pki_full = refl

pub cp_full : open_memory.get Kind.control_plane req full_cluster ≡ ok cp
unfolding update or_else cast String_discrete
cp_full = refl

pub kas_full : open_memory.get Kind.kube_api_server req full_cluster ≡ ok kas
unfolding update or_else cast String_discrete
kas_full = refl

pub kcm_full : open_memory.get Kind.kube_controller_manager req full_cluster ≡ ok kcm
unfolding update or_else cast String_discrete
kcm_full = refl

pub ks_full : open_memory.get Kind.kube_scheduler req full_cluster ≡ ok ks
unfolding update or_else cast String_discrete
ks_full = refl

abbrev pub SecretFound : String → Type 0
SecretFound name =
    open_memory.get Kind.secret (record { namespace = "tenants"; name = name }) full_cluster
    ≡ ok (issued name)

pub ca_found : SecretFound "ca"
unfolding update or_else cast String_discrete
ca_found = refl

pub accounts_found : SecretFound "service-accounts"
unfolding update or_else cast String_discrete
accounts_found = refl

pub admin_found : SecretFound "admin"
unfolding update or_else cast String_discrete
admin_found = refl

pub api_server_found : SecretFound "kube-apiserver"
unfolding update or_else cast String_discrete
api_server_found = refl

pub controller_manager_found : SecretFound "kube-controller-manager"
unfolding update or_else cast String_discrete
controller_manager_found = refl

pub scheduler_found : SecretFound "kube-scheduler"
unfolding update or_else cast String_discrete
scheduler_found = refl

pub konnectivity_found : SecretFound "konnectivity"
unfolding update or_else cast String_discrete
konnectivity_found = refl

-- The kubeconfig that the table's encoder makes of a Secret: the certificate, the CA and the key.
pub generated :
    (name host : String) → generate_kubeconfig open_memory (issued name) host ≡ ok (1 ∷ 3 ∷ 2 ∷ [])
unfolding generate_kubeconfig kubeconfig_of find String_discrete
generated name host = refl

pub lawful : IsLawful open_memory
lawful = memory-IsLawful (λ _. false) (λ _. false)

-- Its two encoders.
abbrev pub encoders : Encodes open_memory
encoders = record {
  encode = λ c. c.client_certificate_data ++ c.client_key_data;
  encode_json = λ c. 0 ∷ [];
  kubeconfigs = λ c. refl;
  configurations = λ c. refl;
}
