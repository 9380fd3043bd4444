-- ===== src/Pki/Issued.antt =====
-- What the PKI reconciler asks for, and that its certificates form a chain.
use kubeception_operator.Base.{String, ◌≡◌, ◌≢◌, refl, ok, true, List, [], ◌∷◌}
use kubeception_operator.Types.Meta.{Key}
use kubeception_operator.Types.Crd.{Pki}
use kubeception_operator.Types.Core.{Bytes}
use kubeception_operator.Types.CertManager.{IssuerSpec, self_signed, ca, CertificateSpec}
use kubeception_operator.Types.Kinds.{Kind, Obj}
use kubeception_operator.Platform.Interface.{Platform}
use kubeception_operator.Utils.{beside, kubeconfig_name, kubeconfig_data}
use kubeception_operator.Pki.Certificates.{
  root_issuer, ca_issuer, root_ca, admin_cert, kube_api_server_cert, service_accounts_cert,
  kube_controller_manager_cert, kube_scheduler_cert, konnectivity_cert,
}

abbrev pub Requests : Type 0
Requests = List (String × CertificateSpec)

abbrev pub components : Pki → Requests
components pki =
    (pki.spec.kube_api_server.name, kube_api_server_cert pki)
    ∷ (pki.spec.service_accounts.name, service_accounts_cert pki)
    ∷ (pki.spec.kube_controller_manager.name, kube_controller_manager_cert pki)
    ∷ (pki.spec.kube_scheduler.name, kube_scheduler_cert pki)
    ∷ (pki.spec.konnectivity.name, konnectivity_cert pki)
    ∷ []

-- The seven certificates, by the names that the specification gives.
abbrev pub certificates : Pki → Requests
certificates pki =
    (pki.spec.ca.name, root_ca pki) ∷ (pki.spec.admin.name, admin_cert pki) ∷ components pki

abbrev pub Fresh : String → Requests → Type 0
Fresh name [] = Unit
Fresh name ((other, _) ∷ cs) = (other ≢ name) × Fresh name cs

-- No two certificates have the same name.
abbrev pub Distinct : Requests → Type 0
Distinct [] = Unit
Distinct ((name, _) ∷ cs) = Fresh name cs × Distinct cs

module _ (P : Platform) (req : Key) where
  open P use {State, Error, get}

  abbrev pub IssuerStored : String → IssuerSpec → State → Type 0
  IssuerStored name spec s =
      (o : Obj Kind.issuer) × (get Kind.issuer (beside req name) s ≡ ok o) × (o.spec ≡ spec)

  abbrev pub Stored : String → CertificateSpec → State → Type 0
  Stored name spec s =
      (o : Obj Kind.certificate) × (get Kind.certificate (beside req name) s ≡ ok o)
      × (o.spec ≡ spec)

  abbrev pub AllStored : Requests → State → Type 0
  AllStored [] s = Unit
  AllStored ((name, spec) ∷ cs) s = Stored name spec s × AllStored cs s

  -- The two issuers, the seven certificates and the administrator's kubeconfig are as the
  -- specification says.
  pub record IsIssued (pki : Pki) (kubeconfig : Bytes) (s : State) : Type 0 where
    pub root : IssuerStored pki.spec.name root_issuer s
    pub authority : IssuerStored pki.spec.ca.name (ca_issuer pki) s
    pub issued : AllStored (certificates pki) s
    pub secret : Obj Kind.secret
    pub secret_stored :
        get Kind.secret (beside req (kubeconfig_name pki.spec.admin.name)) s ≡ ok secret
    pub secret_data : secret.spec ≡ kubeconfig_data kubeconfig

  -- The certificate is issued by an issuer that signs with the key of a certificate that is a CA
  -- and that a self-signed issuer has issued.
  abbrev pub IsChained : CertificateSpec → State → Type 0
  IsChained spec s =
      (name : String) × (root : CertificateSpec) × Stored name root s
      × (root.is_ca ≡ true)
      × IssuerStored spec.issuer_ref.name (ca root.secret_name) s
      × IssuerStored root.issuer_ref.name self_signed s

  -- Each certificate is there as requested, and chained.
  abbrev pub AllChained : Requests → State → Type 0
  AllChained [] s = Unit
  AllChained ((name, spec) ∷ cs) s = (Stored name spec s × IsChained spec s) × AllChained cs s

  -- What the specification asks for is chained to the CA.
  pub IsIssued-AllChained :
      (pki : Pki) (kubeconfig : Bytes) (s : State)
      → IsIssued pki kubeconfig s
      → AllChained ((pki.spec.admin.name, admin_cert pki) ∷ components pki) s
  unfolding root_issuer ca_issuer root_ca admin_cert kube_api_server_cert service_accounts_cert
      kube_controller_manager_cert kube_scheduler_cert konnectivity_cert
  IsIssued-AllChained pki kubeconfig s i =
      let chain : IsChained (admin_cert pki) s =
        (pki.spec.ca.name, root_ca pki, i.issued.0, refl, i.authority, i.root) in
      let (ca_cert, (admin, (kas, (sa, (kcm, (ks, (konnectivity, _))))))) = i.issued in
      (
        (admin, chain),
        ((kas, chain), ((sa, chain), ((kcm, chain), ((ks, chain), ((konnectivity, chain), tt))))),
      )
