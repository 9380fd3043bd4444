-- ===== src/Pki/Plan.antt =====
-- What the PKI reconciler promises, as a change of a table of objects.
use kubeception_operator.Base.{
  String, ◌<>◌, ◌==◌, ◌≡◌, refl, sym, subst, Result, ok, Fault, inl, inr, List, [], ◌∷◌,
  if◌then◌else◌, Bool-cases,
}
use kubeception_operator.Types.Meta.{Key}
use kubeception_operator.Types.Crd.{Pki}
use kubeception_operator.Types.Core.{Bytes}
use kubeception_operator.Types.CertManager.{IssuerSpec, CertificateSpec}
use kubeception_operator.Types.Kinds.{Kind, Spec, Obj}
use kubeception_operator.Types.Kinds.Zero.{fresh}
use kubeception_operator.Platform.Exec.{Exec, continue, ◌>>◌}
use kubeception_operator.Platform.Interface.{Kubeconfig, Platform, IsLawful, IsHealthy}
use kubeception_operator.Platform.Owned.{controlled, apply_owned}
use kubeception_operator.Platform.Fetch.{Ending, done, requeue_after}
use kubeception_operator.Platform.View.{
  Write, write, execute, Plan, on_object, on_secret, view, Encodes, Implements, Implements-pure,
  Implements-with_object, Implements-with_secret, apply_owned-write,
}
use kubeception_operator.Utils.{
  beside, kubeconfig_of, generate_kubeconfig, kubeconfig_data, kubeconfig_name,
}
use kubeception_operator.Pki.Certificates.{
  root_issuer, ca_issuer, root_ca, admin_cert, kube_api_server_cert, service_accounts_cert,
  kube_controller_manager_cert, kube_scheduler_cert, konnectivity_cert,
}
use kubeception_operator.Pki.{
  forgive, ignoring, mutate_issuer, mutate_certificate, mutate_kubeconfig, apply, sync_components,
  sync_admin, sync, reconcile,
}

module _ (req : Key) (pki : Pki) where
  -- An object gets a specification; the rest of it stays.
  abbrev pub keep : (k : Kind) → String → Spec k → Write
  keep k name spec = record {
    kind = k;
    initial = controlled Kind.pki pki.meta k (fresh k req.namespace name);
    change = λ o. record o { spec = spec };
  }

  -- What needs no address: the CA and the administrator's certificate.
  abbrev pub authority_writes : List Write
  authority_writes =
      keep Kind.issuer pki.spec.name root_issuer
      ∷ keep Kind.certificate pki.spec.ca.name (root_ca pki)
      ∷ keep Kind.issuer pki.spec.ca.name (ca_issuer pki)
      ∷ keep Kind.certificate pki.spec.admin.name (admin_cert pki)
      ∷ []

  abbrev pub component_writes : List Write
  component_writes =
      keep Kind.certificate pki.spec.kube_api_server.name (kube_api_server_cert pki)
      ∷ keep Kind.certificate pki.spec.service_accounts.name (service_accounts_cert pki)
      ∷ keep Kind.certificate pki.spec.kube_controller_manager.name
          (kube_controller_manager_cert pki)
      ∷ keep Kind.certificate pki.spec.kube_scheduler.name (kube_scheduler_cert pki)
      ∷ keep Kind.certificate pki.spec.konnectivity.name (konnectivity_cert pki)
      ∷ []

  abbrev pub kubeconfig_write : (Kubeconfig → Bytes) → Obj Kind.secret → Write
  kubeconfig_write encode tls = keep Kind.secret (kubeconfig_name pki.spec.admin.name) (
      kubeconfig_data
        (encode (kubeconfig_of tls.spec ("https://" <> pki.spec.control_plane_ip <> ":6443"))))

  -- Without an address the components' certificates wait.
  abbrev pub component_plan : Plan
  component_plan t =
      if pki.spec.control_plane_ip == ""
      then (requeue_after 3, t)
      else (done, execute component_writes t)

-- The CA is kept; once the administrator's Secret is there, so are the kubeconfig and, with an
-- address, the components' certificates.
unfoldable pub plan : (Kubeconfig → Bytes) → Key → Plan
unfolding kubeconfig_of execute root_issuer ca_issuer root_ca admin_cert kube_api_server_cert
    service_accounts_cert kube_controller_manager_cert kube_scheduler_cert konnectivity_cert
plan encode req t =
    on_object (t Kind.pki req)
      (λ pki t.
        let authority = execute (authority_writes req pki) t in
        on_secret (authority Kind.secret (beside req pki.spec.admin.name))
          (λ tls t. component_plan req pki (execute (kubeconfig_write req pki encode tls ∷ []) t))
          authority)
      t

module _ (P : Platform) (L : IsLawful P) (H : IsHealthy P) (req : Key) (pki : Pki) where
  open P use {State, Error}

  module _ (k : Kind) (name : String) (f : Obj k → Result (Fault Error) (Obj k)) (spec : Spec k)
      (makes : (b : Obj k) → f b ≡ ok (record b { spec = spec })) where
    Implements-keep :
        (rest : Plan) (next : Exec State Error Ending) (s : State)
        → ((s1 : State) → Implements P (next s1) (rest (view P s1)))
        → Implements P
            ((apply P req pki k name f >> next) s)
            (rest (write (keep req pki k name spec) (view P s)))
    unfolding apply ignoring
    Implements-keep rest next s goes_on =
        let o = fresh k req.namespace name in
        let (returns, leaves) =
          apply_owned-write P L H Kind.pki pki.meta k o f (λ o. record o { spec = spec }) makes
            (λ _. refl) s in
        let s1 = (apply_owned P Kind.pki pki.meta k o f s).1 in
        subst
          (λ r.
            Implements P (continue (forgive r) (λ _. next) s1)
              (rest (write (keep req pki k name spec) (view P s))))
          (sym returns) (subst (λ t. Implements P (next s1) (rest t)) leaves (goes_on s1))

  Implements-issuer :
      (name : String) (spec : IssuerSpec) (rest : Plan) (next : Exec State Error Ending) (s : State)
      → ((s1 : State) → Implements P (next s1) (rest (view P s1)))
      → Implements P
          ((apply P req pki Kind.issuer name (mutate_issuer spec) >> next) s)
          (rest (write (keep req pki Kind.issuer name spec) (view P s)))
  unfolding mutate_issuer
  Implements-issuer name spec =
      Implements-keep Kind.issuer name (mutate_issuer spec) spec (λ _. refl)

  Implements-certificate :
      (name : String) (spec : CertificateSpec) (rest : Plan) (next : Exec State Error Ending)
      (s : State)
      → ((s1 : State) → Implements P (next s1) (rest (view P s1)))
      → Implements P
          ((apply P req pki Kind.certificate name (mutate_certificate spec) >> next) s)
          (rest (write (keep req pki Kind.certificate name spec) (view P s)))
  unfolding mutate_certificate
  Implements-certificate name spec =
      Implements-keep Kind.certificate name (mutate_certificate spec) spec (λ _. refl)

  sync_components-Implements :
      (s : State)
      → Implements P
          (sync_components P req pki s)
          (done, execute (component_writes req pki) (view P s))
  unfolding sync_components execute
  sync_components-Implements s =
      let last = keep req pki Kind.certificate in
      Implements-certificate _ _
        (λ t. (
          done,
          execute
              (last pki.spec.service_accounts.name (service_accounts_cert pki)
                ∷ last pki.spec.kube_controller_manager.name (kube_controller_manager_cert pki)
                ∷ last pki.spec.kube_scheduler.name (kube_scheduler_cert pki)
                ∷ last pki.spec.konnectivity.name (konnectivity_cert pki)
                ∷ [])
              t,
        ))
        _ s
        λ s1.
          Implements-certificate _ _
            (λ t. (
              done,
              execute
                  (last pki.spec.kube_controller_manager.name (kube_controller_manager_cert pki)
                    ∷ last pki.spec.kube_scheduler.name (kube_scheduler_cert pki)
                    ∷ last pki.spec.konnectivity.name (konnectivity_cert pki)
                    ∷ [])
                  t,
            ))
            _ s1
            λ s2.
              Implements-certificate _ _
                (λ t. (
                  done,
                  execute
                      (last pki.spec.kube_scheduler.name (kube_scheduler_cert pki)
                        ∷ last pki.spec.konnectivity.name (konnectivity_cert pki)
                        ∷ [])
                      t,
                ))
                _ s2
                λ s3.
                  Implements-certificate _ _
                    (λ t. (
                      done,
                      execute (last pki.spec.konnectivity.name (konnectivity_cert pki) ∷ []) t,
                    ))
                    _ s3
                    λ s4.
                      Implements-certificate _ _ (λ t. (done, t)) _ s4
                        λ s5. Implements-pure P done s5

  sync_admin-Implements :
      (E : Encodes P) (tls : Obj Kind.secret) (s : State)
      → Implements P
          (sync_admin P req pki tls s)
          (component_plan req pki (execute (kubeconfig_write req pki E.encode tls ∷ []) (view P s)))
  unfolding sync_admin execute mutate_kubeconfig generate_kubeconfig
  sync_admin-Implements E tls s =
      Implements-keep Kind.secret (kubeconfig_name pki.spec.admin.name)
        (mutate_kubeconfig P pki tls) _ (λ _. rw (E.kubeconfigs _) refl) (component_plan req pki) _
        s
        λ s1. elim (Bool-cases (pki.spec.control_plane_ip == "")) [
          | inl empty ↦ rw empty (Implements-pure P (requeue_after 3) s1)
          | inr filled ↦ rw filled (sync_components-Implements s1)
        ]

  sync-Implements :
      (E : Encodes P) (s : State)
      → Implements P (sync P req pki s) (
          on_secret
            (execute
              (authority_writes req pki)
              (view P s)
              Kind.secret
              (beside req pki.spec.admin.name))
            (λ tls t.
              component_plan req pki (execute (kubeconfig_write req pki E.encode tls ∷ []) t))
            (execute (authority_writes req pki) (view P s)))
  unfolding sync execute
  sync-Implements E s =
      let rest : Plan = λ t.
        on_secret (t Kind.secret (beside req pki.spec.admin.name))
          (λ tls t. component_plan req pki (execute (kubeconfig_write req pki E.encode tls ∷ []) t))
          t in
      let admin = keep req pki Kind.certificate pki.spec.admin.name (admin_cert pki) in
      let issuer = keep req pki Kind.issuer pki.spec.ca.name (ca_issuer pki) in
      let root = keep req pki Kind.certificate pki.spec.ca.name (root_ca pki) in
      Implements-issuer _ _ (λ t. rest (execute (root ∷ issuer ∷ admin ∷ []) t)) _ s
        λ s1.
          Implements-certificate _ _ (λ t. rest (execute (issuer ∷ admin ∷ []) t)) _ s1
            λ s2.
              Implements-issuer _ _ (λ t. rest (execute (admin ∷ []) t)) _ s2
                λ s3. Implements-certificate _ _ rest _ s3 λ s4.
                  Implements-with_secret P L H _ (beside req pki.spec.admin.name) _ s4
                    λ tls _. sync_admin-Implements E tls s4

module _ (P : Platform) (L : IsLawful P) (H : IsHealthy P) (E : Encodes P) (req : Key) where
  -- The reconciler implements the plan, whatever the state.
  pub reconcile-Implements :
      (s : P.State) → Implements P (reconcile P req s) (plan E.encode req (view P s))
  unfolding reconcile plan
  reconcile-Implements s =
      Implements-with_object P L H _ req _ s λ pki _. sync-Implements P L H req pki E s
