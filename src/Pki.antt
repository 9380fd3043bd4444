-- ===== src/Pki.antt =====
-- internal/controller/pki_controller.go: two issuers, the certificates of the components, and the
-- administrator's kubeconfig.
pub mod Certificates
pub mod Steps
pub mod Runs
pub mod Footprint
pub mod Issued
pub mod Batch
pub mod Healthy
pub mod Chained
pub mod Unaddressed
pub mod Plan
pub mod Settles
use kubeception_operator.Base.{
  String, ◌<>◌, ◌==◌, Result, ok, err, Fault, error, panic, List, [], ◌∷◌, if◌then◌else◌,
}
use kubeception_operator.Types.Meta.{Key}
use kubeception_operator.Types.Crd.{Pki}
use kubeception_operator.Types.CertManager.{IssuerSpec, CertificateSpec}
use kubeception_operator.Types.Kinds.{Kind, Obj}
use kubeception_operator.Types.Kinds.Zero.{fresh}
use kubeception_operator.Platform.Exec.{Exec, pure, ◌>>=◌, ◌>>◌}
use kubeception_operator.Platform.Interface.{Platform}
use kubeception_operator.Platform.Fetch.{Ending, done, requeue_after, with_object, with_secret}
use kubeception_operator.Platform.Owned.{apply_owned}
use kubeception_operator.Utils.{generate_kubeconfig, with_kubeconfig, kubeconfig_name, beside}
use Certificates.{
  root_issuer, ca_issuer, root_ca, admin_cert, kube_api_server_cert, service_accounts_cert,
  kube_controller_manager_cert, kube_scheduler_cert, konnectivity_cert,
}

-- The MutateFns.
unfoldable pub mutate_issuer :
    {E : Type 0} → IssuerSpec → Obj Kind.issuer → Result (Fault E) (Obj Kind.issuer)
mutate_issuer spec o = ok (record o { spec = spec })

unfoldable pub mutate_certificate :
    {E : Type 0} → CertificateSpec → Obj Kind.certificate → Result (Fault E) (Obj Kind.certificate)
mutate_certificate spec o = ok (record o { spec = spec })

unfoldable pub mutate_kubeconfig :
    (P : Platform)
    → Pki
    → Obj Kind.secret
    → Obj Kind.secret
    → Result (Fault P.Error) (Obj Kind.secret)
mutate_kubeconfig P pki tls kubeconfig =
    with_kubeconfig kubeconfig
      (generate_kubeconfig P tls ("https://" <> pki.spec.control_plane_ip <> ":6443"))

-- A call whose error the caller does not look at.
abbrev forgive : {E A : Type 0} → Result (Fault E) A → Result (Fault E) (Unit {0})
forgive (ok _) = ok tt
forgive (err (error _)) = ok tt
forgive (err panic) = err panic

module _ {S E A : Type 0} where
  unfoldable pub ignoring : Exec S E A → Exec S E (Unit {0})
  ignoring m s = (forgive (m s).0, (m s).1)

module _ (P : Platform) (req : Key) (pki : Pki) where
  open P use {State, Error}

  -- `r.CreateOrPatch(...)` as a statement: the error that it returns is dropped.
  unfoldable pub apply :
      (k : Kind) → String → (Obj k → Result (Fault Error) (Obj k)) → Exec State Error (Unit {0})
  unfolding ignoring
  apply k name f = ignoring (apply_owned P Kind.pki pki.meta k (fresh k req.namespace name) f)

  -- The certificates that need the control plane's address.
  unfoldable pub sync_components : Exec State Error Ending
  sync_components = do
    apply Kind.certificate pki.spec.kube_api_server.name
        (mutate_certificate (kube_api_server_cert pki))
    apply Kind.certificate pki.spec.service_accounts.name
        (mutate_certificate (service_accounts_cert pki))
    apply Kind.certificate pki.spec.kube_controller_manager.name
        (mutate_certificate (kube_controller_manager_cert pki))
    apply Kind.certificate pki.spec.kube_scheduler.name
        (mutate_certificate (kube_scheduler_cert pki))
    apply Kind.certificate pki.spec.konnectivity.name (mutate_certificate (konnectivity_cert pki))
    pure done

  -- Once the administrator's certificate was issued. The kubeconfig is written before the address
  -- is looked at.
  unfoldable pub sync_admin : Obj Kind.secret → Exec State Error Ending
  sync_admin tls = do
    apply Kind.secret (kubeconfig_name pki.spec.admin.name) (mutate_kubeconfig P pki tls)
    if pki.spec.control_plane_ip == "" then pure (requeue_after 3) else sync_components

  unfoldable pub sync : Exec State Error Ending
  sync = do
    apply Kind.issuer pki.spec.name (mutate_issuer root_issuer)
    apply Kind.certificate pki.spec.ca.name (mutate_certificate (root_ca pki))
    apply Kind.issuer pki.spec.ca.name (mutate_issuer (ca_issuer pki))
    apply Kind.certificate pki.spec.admin.name (mutate_certificate (admin_cert pki))
    with_secret P (beside req pki.spec.admin.name) sync_admin

-- `Reconcile`
unfoldable pub reconcile : (P : Platform) → Key → Exec P.State P.Error Ending
reconcile P req = with_object P Kind.pki req (λ pki. sync P req pki)
