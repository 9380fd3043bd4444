-- ===== src/Pki/Chained.antt =====
-- The trust chain of the certificates that a run of the PKI reconciler leaves.
use kubeception_operator.Base.{◌<>◌, ◌≡◌, ◌≢◌, ok, ◌∷◌}
use kubeception_operator.Types.Meta.{Key}
use kubeception_operator.Types.Crd.{Pki}
use kubeception_operator.Types.Core.{Bytes}
use kubeception_operator.Types.Kinds.{Kind, Obj}
use kubeception_operator.Platform.Interface.{Platform, IsLawful, IsHealthy}
use kubeception_operator.Utils.{beside, generate_kubeconfig}
use kubeception_operator.Pki.Certificates.{admin_cert}
use kubeception_operator.Pki.{reconcile}
use kubeception_operator.Pki.Healthy.{pki_issues}
use kubeception_operator.Pki.Issued.{
  components, certificates, Distinct, AllChained, IsIssued-AllChained,
}

-- Where no call fails, with the administrator's Secret there, an address, a kubeconfig that can be
-- generated, and different names for the two issuers and for the seven certificates, a run leaves
-- the six certificates other than the CA's stored as the specification asks, and each is issued by
-- a stored issuer that signs with the key of a stored certificate that is a CA and that a stored
-- self-signed issuer has issued.
pub reconcile-AllChained :
    (P : Platform) (L : IsLawful P) (req : Key) (pki : Pki)
    → IsHealthy P
    → (tls : Obj Kind.secret) (kubeconfig : Bytes)
    → generate_kubeconfig P tls ("https://" <> pki.spec.control_plane_ip <> ":6443") ≡ ok kubeconfig
    → Distinct (certificates pki)
    → pki.spec.name ≢ pki.spec.ca.name
    → pki.spec.control_plane_ip ≢ ""
    → (s : P.State) → P.get Kind.pki req s ≡ ok pki
    → P.get Kind.secret (beside req pki.spec.admin.name) s ≡ ok tls
    → AllChained P req
        ((pki.spec.admin.name, admin_cert pki) ∷ components pki)
        (reconcile P req s).1
reconcile-AllChained P L req pki H tls kubeconfig generates d issuers_differ has_ip s found
      secret_found =
    let (_, issued) =
      pki_issues P L req pki H tls kubeconfig generates d issuers_differ has_ip s found
        secret_found in
    IsIssued-AllChained P req pki kubeconfig (reconcile P req s).1 issued
