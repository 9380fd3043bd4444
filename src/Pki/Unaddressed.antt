-- ===== src/Pki/Unaddressed.antt =====
-- Runs of the PKI reconciler before the control plane has an address.
use kubeception_operator.Base.{◌<>◌, ◌≡◌, refl, ap, ◌∙◌, ok, true, ◌==◌, arith}
use kubeception_operator.Types.Meta.{Key}
use kubeception_operator.Types.Crd.{Pki}
use kubeception_operator.Types.Core.{Bytes}
use kubeception_operator.Types.CertManager.{IssuerSpec}
use kubeception_operator.Types.Kinds.{Kind, Obj}
use kubeception_operator.Platform.Interface.{Platform, IsLawful, IsHealthy}
use kubeception_operator.Platform.Fetch.{Ending, requeue_after, or_done, or_requeue}
use kubeception_operator.Utils.{beside, generate_kubeconfig, kubeconfig_name, kubeconfig_data}
use kubeception_operator.Pki.{mutate_issuer, mutate_kubeconfig, sync_admin, sync, reconcile}
use kubeception_operator.Pki.Batch.{mutate_certificate-total}
use kubeception_operator.Pki.Steps.{Ends, Ends-write}

module _ (P : Platform) (L : IsLawful P) (req : Key) (pki : Pki) (H : IsHealthy P)
    (tls : Obj Kind.secret) (kubeconfig : Bytes)
    (generates : generate_kubeconfig P tls "https://:6443" ≡ ok kubeconfig)
    (no_address : pki.spec.control_plane_ip ≡ "") where
  open P use {State, Error, get}

  generates_hostless :
      generate_kubeconfig P tls ("https://" <> pki.spec.control_plane_ip <> ":6443") ≡ ok kubeconfig
  generates_hostless = rw no_address generates

  mutate_kubeconfig_hostless :
      (o : Obj Kind.secret)
      → mutate_kubeconfig P pki tls o ≡ ok (record o { spec = kubeconfig_data kubeconfig })
  unfolding mutate_kubeconfig
  mutate_kubeconfig_hostless o = rw generates_hostless

  IsHostless : Ending → State → Type 0
  IsHostless a s =
      (a ≡ requeue_after 3)
      × ((o : Obj Kind.secret) × (get Kind.secret (beside req (kubeconfig_name pki.spec.admin.name))
              s
            ≡ ok o)
          × (o.spec ≡ kubeconfig_data kubeconfig))

  sync_admin-IsHostless : (s : State) → Ends (sync_admin P req pki tls s) IsHostless
  unfolding sync_admin IsHostless
  sync_admin-IsHostless s =
      Ends-write P L req pki Kind.secret (kubeconfig_name pki.spec.admin.name)
        (mutate_kubeconfig P pki tls) _ s H (λ b. (_, mutate_kubeconfig_hostless b, refl))
        λ s1 o b made stored others.
          let blank : (pki.spec.control_plane_ip == "") ≡ true = ground (arith, no_address) in
          let same : o ≡ record b { spec = kubeconfig_data kubeconfig } =
            cc (mutate_kubeconfig_hostless b, made) in
          rw blank (record {
            result = requeue_after 3;
            returns = refl;
            holds = (refl, (o, stored, ap (λ (x : Obj Kind.secret). x.spec) same));
          })

  issuer-total :
      (spec : IssuerSpec) (b : Obj Kind.issuer)
      → (m : Obj Kind.issuer) × (mutate_issuer {E = Error} spec b ≡ ok m)
        × (m.meta.key ≡ b.meta.key)
  unfolding mutate_issuer
  issuer-total spec b = (_, refl, refl)

  sync-IsHostless :
      (s : State)
      → get Kind.secret (beside req pki.spec.admin.name) s ≡ ok tls
      → Ends (sync P req pki s) IsHostless
  unfolding sync
  sync-IsHostless s found =
      Ends-write P L req pki _ _ (mutate_issuer _) _ s H (issuer-total _) λ s1 root b1 m1 g1 k1.
        Ends-write P L req pki _ _ _ _ s1 H (mutate_certificate-total P L req pki _)
          λ s2 root_cert b2 m2 g2 k2.
            Ends-write P L req pki _ _ (mutate_issuer _) _ s2 H (issuer-total _)
              λ s3 authority b3 m3 g3 k3.
                Ends-write P L req pki _ _ _ _ s3 H (mutate_certificate-total P L req pki _)
                  λ s4 admin b4 m4 g4 k4.
                    let found4 : get Kind.secret (beside req pki.spec.admin.name) s4 ≡ ok tls =
                      k4 Kind.secret _ (λ e. cc (e.0))
                      ∙ (k3 Kind.secret _ (λ e. cc (e.0))
                          ∙ (k2 Kind.secret _ (λ e. cc (e.0))
                              ∙ (k1 Kind.secret _ (λ e. cc (e.0)) ∙ found))) in
                    rw (found4, or_requeue) (sync_admin-IsHostless s4)

  -- Where no call fails, with the administrator's Secret there and no control plane address yet, a
  -- run asks for another one in three seconds, but it has already written the administrator's
  -- kubeconfig, for the server https://:6443 without a host.
  pub pki_writes_hostless_kubeconfig :
      (s : State)
      → get Kind.pki req s ≡ ok pki
      → get Kind.secret (beside req pki.spec.admin.name) s ≡ ok tls
      → ((reconcile P req s).0 ≡ ok (requeue_after 3))
        × ((o : Obj Kind.secret) × (get Kind.secret
                (beside req (kubeconfig_name pki.spec.admin.name))
                (reconcile P req s).1
              ≡ ok o)
            × (o.spec ≡ kubeconfig_data kubeconfig))
  unfolding reconcile IsHostless
  pki_writes_hostless_kubeconfig s found secret_found =
      let e = sync-IsHostless s secret_found in
      let (waits, written) = e.holds in rw (found, or_done) (rw waits at e.returns, written)
