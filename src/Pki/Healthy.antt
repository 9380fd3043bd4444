-- ===== src/Pki/Healthy.antt =====
-- What a run of the PKI reconciler leaves where no call fails.
use kubeception_operator.Base.{◌<>◌, String, ◌≡◌, ◌≢◌, refl, ap, ◌∙◌, ok, false, ◌==◌, arith}
use kubeception_operator.Types.Meta.{Key}
use kubeception_operator.Types.Crd.{Pki}
use kubeception_operator.Types.Core.{Bytes}
use kubeception_operator.Types.CertManager.{IssuerSpec}
use kubeception_operator.Types.Kinds.{Kind, Obj}
use kubeception_operator.Platform.Interface.{Platform, IsLawful, IsHealthy}
use kubeception_operator.Platform.Fetch.{Ending, done, or_done, or_requeue}
use kubeception_operator.Utils.{beside, generate_kubeconfig, kubeconfig_name, kubeconfig_data}
use kubeception_operator.Pki.Certificates.{root_issuer, ca_issuer, root_ca, admin_cert}
use kubeception_operator.Pki.{
  mutate_issuer, mutate_certificate, mutate_kubeconfig, sync_admin, sync, reconcile,
}
use kubeception_operator.Pki.Steps.{Ends, Ends-write}
use kubeception_operator.Pki.Issued.{
  components, certificates, Fresh, Distinct, IssuerStored, Stored, AllStored, IsIssued,
}
use kubeception_operator.Pki.Batch.{
  issue, sync_components-issue, NotAmong, Fresh-NotAmong, Other_kind-NotAmong, Issues, Ends-map,
  mutate_certificate-total, mutate_certificate-spec, issue-Issues,
}

module _ (P : Platform) (L : IsLawful P) (req : Key) (pki : Pki) where
  open P use {State, Error, get}

  module _ (H : IsHealthy P) (tls : Obj Kind.secret) (kubeconfig : Bytes)
      (generates : generate_kubeconfig P tls ("https://" <> pki.spec.control_plane_ip <> ":6443")
        ≡ ok kubeconfig) where
    mutate_kubeconfig_lem :
        (o : Obj Kind.secret)
        → mutate_kubeconfig P pki tls o ≡ ok (record o { spec = kubeconfig_data kubeconfig })
    unfolding mutate_kubeconfig
    mutate_kubeconfig_lem o = rw generates

    -- What `sync_admin` leaves when it is run from `s`.
    IsAdministered : State → Ending → State → Type 0
    IsAdministered s a s' =
        (a ≡ done)
        × AllStored P req (components pki) s'
        × ((o : Obj Kind.secret) × (get Kind.secret
                (beside req (kubeconfig_name pki.spec.admin.name)) s'
              ≡ ok o)
            × (o.spec ≡ kubeconfig_data kubeconfig))
        × ((k : Kind) (key : Key)
            → NotAmong P L req pki (components pki) k key
            → k ≢ Kind.secret
            → get k key s' ≡ get k key s)

    sync_admin-IsAdministered :
        Distinct (components pki)
        → pki.spec.control_plane_ip ≢ ""
        → (s : State) → Ends (sync_admin P req pki tls s) (IsAdministered s)
    unfolding sync_admin IsAdministered Issues
    sync_admin-IsAdministered d has_ip s =
        Ends-write P L req pki Kind.secret (kubeconfig_name pki.spec.admin.name)
          (mutate_kubeconfig P pki tls) _ s H (λ b. (_, mutate_kubeconfig_lem b, refl))
          λ s1 o b made stored others.
            let filled : (pki.spec.control_plane_ip == "") ≡ false = ground arith in
            let same : o ≡ record b { spec = kubeconfig_data kubeconfig } =
              cc (mutate_kubeconfig_lem b, made) in
            rw (filled, sync_components-issue P L req pki)
              (Ends-map P L req pki (issue P L req pki (components pki) s1)
                (λ a s' (is_done, all, kept). (
                  is_done,
                  all,
                  (
                    o,
                    kept Kind.secret (beside req (kubeconfig_name pki.spec.admin.name)) (
                          Other_kind-NotAmong P L req pki Kind.secret _ (components pki)
                            (λ e. cc e))
                        ∙ stored,
                    ap (λ (x : Obj Kind.secret). x.spec) same,
                  ),
                  λ k key n not_secret. kept k key n ∙ others k key (λ e. not_secret (cc (e.0))),
                ))
                (issue-Issues P L req pki H (components pki) d s1))

    IsSynced : Ending → State → Type 0
    IsSynced a s = (a ≡ done) × IsIssued P req pki kubeconfig s

    mutate_issuer-total :
        (spec : IssuerSpec) (b : Obj Kind.issuer)
        → (m : Obj Kind.issuer) × (mutate_issuer {E = Error} spec b ≡ ok m)
          × (m.meta.key ≡ b.meta.key)
    unfolding mutate_issuer
    mutate_issuer-total spec b = (_, refl, refl)

    mutate_issuer-spec :
        (spec : IssuerSpec) (b o : Obj Kind.issuer)
        → mutate_issuer {E = Error} spec b ≡ ok o
        → o.spec ≡ spec
    unfolding mutate_issuer
    mutate_issuer-spec spec b o made = ground (arith, made)

    -- What the first four steps have stored is still there after the rest.
    after_admin :
        (s4 s' : State) (a : Ending)
        → Fresh pki.spec.ca.name (components pki)
        → Fresh pki.spec.admin.name (components pki)
        → IssuerStored P req pki.spec.name root_issuer s4
        → IssuerStored P req pki.spec.ca.name (ca_issuer pki) s4
        → Stored P req pki.spec.ca.name (root_ca pki) s4
        → Stored P req pki.spec.admin.name (admin_cert pki) s4
        → IsAdministered s4 a s'
        → IsSynced a s'
    unfolding IsAdministered IsSynced
    after_admin s4 s' a ca_fresh admin_fresh (root, root_at, root_spec)
          (authority, authority_at, authority_spec) (ca_cert, ca_at, ca_spec)
          (admin, admin_at, admin_spec) (is_done, all, (secret, secret_stored, secret_data), kept) =
        let issuer_kept : (name : String)
            → get Kind.issuer (beside req name) s' ≡ get Kind.issuer (beside req name) s4 =
          λ name.
            kept Kind.issuer _ (Other_kind-NotAmong P L req pki _ _ (components pki) (λ e. cc e))
              (λ e. cc e) in
        let certificate_kept : (name : String)
            → Fresh name (components pki)
            → get Kind.certificate (beside req name) s'
              ≡ get Kind.certificate (beside req name) s4 =
          λ name f.
            kept Kind.certificate _ (Fresh-NotAmong P L req pki name (components pki) f)
              (λ e. cc e) in
        (
          is_done,
          record {
            root = (root, issuer_kept _ ∙ root_at, root_spec);
            authority = (authority, issuer_kept _ ∙ authority_at, authority_spec);
            issued = (
              (ca_cert, certificate_kept _ ca_fresh ∙ ca_at, ca_spec),
              ((admin, certificate_kept _ admin_fresh ∙ admin_at, admin_spec), all),
            );
            secret = secret;
            secret_stored = secret_stored;
            secret_data = secret_data;
          },
        )

    sync-IsSynced :
        Distinct (certificates pki)
        → pki.spec.name ≢ pki.spec.ca.name
        → pki.spec.control_plane_ip ≢ ""
        → (s : State) → get Kind.secret (beside req pki.spec.admin.name) s ≡ ok tls
        → Ends (sync P req pki s) IsSynced
    unfolding sync
    sync-IsSynced (ca_fresh, (admin_fresh, d)) issuers_differ has_ip s found =
        Ends-write P L req pki _ _ (mutate_issuer _) _ s H (mutate_issuer-total _)
          λ s1 root b1 m1 g1 k1.
            Ends-write P L req pki _ _ (mutate_certificate _) _ s1 H
              (mutate_certificate-total P L req pki _)
              λ s2 root_cert b2 m2 g2 k2.
                Ends-write P L req pki _ _ (mutate_issuer _) _ s2 H (mutate_issuer-total _)
                  λ s3 authority b3 m3 g3 k3.
                    Ends-write P L req pki _ _ (mutate_certificate _) _ s3 H
                      (mutate_certificate-total P L req pki _)
                      λ s4 admin b4 m4 g4 k4.
                        let found4 : get Kind.secret (beside req pki.spec.admin.name) s4 ≡ ok tls =
                          k4 Kind.secret _ (λ e. cc (e.0))
                          ∙ (k3 Kind.secret _ (λ e. cc (e.0))
                              ∙ (k2 Kind.secret _ (λ e. cc (e.0))
                                  ∙ (k1 Kind.secret _ (λ e. cc (e.0)) ∙ found))) in
                        let root_at =
                          k4 Kind.issuer _ (λ e. cc (e.0))
                          ∙ (k3 Kind.issuer _ (λ e. let e1 = e.1 in issuers_differ (cc e1))
                              ∙ (k2 Kind.issuer _ (λ e. cc (e.0)) ∙ g1)) in
                        let ca_at =
                          k4 Kind.certificate _ (λ e. let e1 = e.1 in ca_fresh.0 (cc e1))
                          ∙ (k3 Kind.certificate _ (λ e. cc (e.0)) ∙ g2) in
                        rw (found4, or_requeue)
                          (Ends-map P L req pki (sync_admin P req pki tls s4)
                            (λ a s'.
                              after_admin s4 s' a (ca_fresh.1) admin_fresh
                                (root, root_at, mutate_issuer-spec _ b1 root m1)
                                (
                                  authority,
                                  k4 Kind.issuer _ (λ e. cc (e.0)) ∙ g3,
                                  mutate_issuer-spec _ b3 authority m3,
                                )
                                (
                                  root_cert,
                                  ca_at,
                                  mutate_certificate-spec P L req pki _ b2 root_cert m2,
                                )
                                (admin, g4, mutate_certificate-spec P L req pki _ b4 admin m4))
                            (sync_admin-IsAdministered d has_ip s4))

    -- Where no call fails, with the administrator's Secret there, an address, a kubeconfig that can
    -- be generated, and different names for the two issuers and for the seven certificates, a run
    -- ends without an error and leaves the issuers, the certificates and the kubeconfig.
    pub pki_issues :
        Distinct (certificates pki)
        → pki.spec.name ≢ pki.spec.ca.name
        → pki.spec.control_plane_ip ≢ ""
        → (s : State) → get Kind.pki req s ≡ ok pki
        → get Kind.secret (beside req pki.spec.admin.name) s ≡ ok tls
        → ((reconcile P req s).0 ≡ ok done) × IsIssued P req pki kubeconfig (reconcile P req s).1
    unfolding reconcile IsSynced
    pki_issues d issuers_differ has_ip s found secret_found =
        let e = sync-IsSynced d issuers_differ has_ip s secret_found in
        let (is_done, issued) = e.holds in rw (found, or_done) (rw is_done at e.returns, issued)
