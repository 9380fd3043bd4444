-- ===== src/Utils.antt =====
-- internal/controller/utils.go: labels, defaults and kubeconfigs.
pub mod Names
pub mod Labels
pub mod Defaults
use kubeception_operator.Base.{
  String, ◌<>◌, ◌==◌, Result, ok, err, Fault, error, List, [], ◌∷◌, ◌++◌, Option, none, some,
  if◌then◌else◌,
}
use kubeception_operator.Base.Dict.{Dict, made, entries, insert_all, lookup}
use kubeception_operator.Types.Meta.{Key, Object}
use kubeception_operator.Base.Int.{format_uint}
use kubeception_operator.Types.Crd.{Service}
use kubeception_operator.Types.Kinds.{Kind, Obj}
use kubeception_operator.Types.Core.{Bytes, SecretData}
use kubeception_operator.Platform.Interface.{Platform, Kubeconfig}

-- `labels`: two fixed labels, then the given ones over them.
unfoldable pub labels : String → String → Dict String → Dict String
labels component instance_name more = made (
    insert_all (entries more)
      (("app.kubernetes.io/name", component) ∷ ("app.kubernetes.io/instance", instance_name) ∷ []))

-- `CoaleseString`: the first argument that is not empty.
unfoldable pub coalesce_string : List String → String
coalesce_string [] = ""
coalesce_string (v ∷ args) = if v == "" then coalesce_string args else v

abbrev or_empty : Option Bytes → Bytes
or_empty none = []
or_empty (some b) = b

-- `secret.Data[key]`, where a missing key reads as no bytes.
abbrev pub data_at : String → SecretData → Bytes
data_at key d = or_empty (lookup key d)

-- The `clientcmdapi.Config` of `GenerateKubeconfigFromSecret`.
unfoldable pub kubeconfig_of : SecretData → String → Kubeconfig
kubeconfig_of tls host = record {
  cluster = "default";
  server = host;
  certificate_authority_data = data_at "ca.crt" tls;
  user = "default-user";
  client_certificate_data = data_at "tls.crt" tls ++ data_at "ca.crt" tls;
  client_key_data = data_at "tls.key" tls;
  context = "default";
  context_cluster = "default";
  context_user = "default-user";
  current_context = "default";
}

-- `GenerateKubeconfigFromSecret`
unfoldable pub generate_kubeconfig :
    (P : Platform) → Object SecretData Unit → String → Result P.Error Bytes
unfolding kubeconfig_of
generate_kubeconfig P tls host = P.write_kubeconfig (kubeconfig_of tls.spec host)

-- `fmt.Sprintf("%s-kubeconfig", name)`
abbrev pub kubeconfig_name : String → String
kubeconfig_name name = name <> "-kubeconfig"

-- `Data["kubeconfig.yml"] = k` on a fresh map.
abbrev pub kubeconfig_data : Bytes → SecretData
kubeconfig_data k = made (("kubeconfig.yml", k) ∷ [])

-- The key of an object in the namespace of the request.
abbrev pub beside : Key → String → Key
beside req name = record { namespace = req.namespace; name = name }

-- `fmt.Sprintf("https://%s:%d", service.Name, service.Port)`
unfoldable pub service_url : Service → String
unfolding format_uint
service_url service = "https://" <> service.name <> ":" <> format_uint service.port

-- A MutateFn that stores a kubeconfig alone.
abbrev pub with_kubeconfig :
    {E : Type 0} → Obj Kind.secret → Result E Bytes → Result (Fault E) (Obj Kind.secret)
with_kubeconfig o (ok k) = ok (record o { spec = kubeconfig_data k })
with_kubeconfig o (err e) = err (error e)
