-- ===== src/Pki/Settles.antt =====
-- A second run of the PKI's controller.
use kubeception_operator.Base.{
  String, ◌≡◌, ◌≢◌, refl, sym, some, ap, List, [], ◌∷◌, ◌∙◌, ◌==◌, Bool, true, false, if◌then◌else◌,
}
use kubeception_operator.Types.Meta.{Key}
use kubeception_operator.Types.Core.{Bytes}
use kubeception_operator.Types.Crd.{Pki}
use kubeception_operator.Types.Kinds.{Kind, Obj}
use kubeception_operator.Platform.Interface.{Kubeconfig}
use kubeception_operator.Platform.Memory.{Table}
use kubeception_operator.Platform.Fetch.{done, requeue_after}
use kubeception_operator.Platform.View.{Plan, Write, on_secret, execute}
use kubeception_operator.Platform.Settled as settled
use kubeception_operator.Platform.Settled.{
  Repeats, on_object-Repeats, on_secret-Repeats, on_secret-others, execute-Repeats, execute-others,
  first-Repeats, AllSpare, AllKept, place_key,
}
use kubeception_operator.Utils.{beside, kubeconfig_of}
use kubeception_operator.Utils.Names.{ne-kubeconfig_name}
use kubeception_operator.Pki.Certificates.{
  root_issuer, ca_issuer, root_ca, admin_cert, kube_api_server_cert, service_accounts_cert,
  kube_controller_manager_cert, kube_scheduler_cert, konnectivity_cert,
}
use kubeception_operator.Pki.Issued.{Requests, Fresh, Distinct, certificates, components}
use kubeception_operator.Pki.Plan.{
  plan, keep, authority_writes, component_writes, kubeconfig_write, component_plan,
}

-- The two issuers have different names, and so have the seven certificates.
abbrev pub Apart : Key → Table → Type 0
Apart req t =
    (pki : Pki)
    → t Kind.pki req ≡ some pki
    → (pki.spec.name ≢ pki.spec.ca.name) × Distinct (certificates pki)

module _ (encode : Kubeconfig → Bytes) (req : Key) where
  abbrev keeps : Pki → Requests → List Write
  keeps pki [] = []
  keeps pki ((name, spec) ∷ cs) = keep req pki Kind.certificate name spec ∷ keeps pki cs

  -- Certificates of other names are written elsewhere.
  Fresh-AllSpare :
      (pki : Pki) (name : String) (cs : Requests)
      → Fresh name cs
      → AllSpare Kind.certificate (beside req name) (keeps pki cs)
  Fresh-AllSpare pki name [] fresh = tt
  Fresh-AllSpare pki name ((other, _) ∷ cs) (differ, fresh) =
      ((λ h. differ (ap (λ k. k.name) (h.1))), Fresh-AllSpare pki name cs fresh)

  keeps-Distinct : (pki : Pki) (cs : Requests) → Distinct cs → settled.Distinct (keeps pki cs)
  keeps-Distinct pki [] apart = tt
  keeps-Distinct pki ((name, _) ∷ cs) (fresh, apart) =
      (Fresh-AllSpare pki name cs fresh, keeps-Distinct pki cs apart)

  keeps-AllIdempotent : (pki : Pki) (cs : Requests) → settled.AllIdempotent (keeps pki cs)
  keeps-AllIdempotent pki [] = tt
  keeps-AllIdempotent pki (c ∷ cs) = ((λ o. refl), keeps-AllIdempotent pki cs)

  -- A kind other than certificates is spared.
  keeps-AllSpare :
      (pki : Pki) (cs : Requests) (k : Kind) (key : Key)
      → Kind.certificate ≢ k
      → AllSpare k key (keeps pki cs)
  keeps-AllSpare pki [] k key differ = tt
  keeps-AllSpare pki (c ∷ cs) k key differ =
      ((λ h. differ (h.0)), keeps-AllSpare pki cs k key differ)

  -- The last part, for a test on the address.
  abbrev components_if : Pki → Bool → Plan
  components_if pki b t =
      if b then (requeue_after 3, t) else (done, execute (component_writes req pki) t)

  -- It leaves what the certificates of the components spare.
  component_plan-others :
      (pki : Pki) (t : Table) (k : Kind) (key : Key)
      → AllSpare k key (component_writes req pki)
      → (component_plan req pki t).1 k key ≡ t k key
  component_plan-others pki t k key spare = decide (pki.spec.control_plane_ip == "")
    where
      decide : (b : Bool) → (components_if pki b t).1 k key ≡ t k key
      decide true = refl
      decide false = execute-others (component_writes req pki) t k key spare

  component_plan-Repeats :
      (pki : Pki) (t : Table) → Distinct (components pki) → Repeats (component_plan req pki) t
  component_plan-Repeats pki t apart = decide (pki.spec.control_plane_ip == "")
    where
      decide : (b : Bool) → Repeats (components_if pki b) t
      decide true = refl
      decide false =
          execute-Repeats done (component_writes req pki) t
            (keeps-Distinct pki (components pki) apart) (keeps-AllIdempotent pki (components pki))

  -- Once the administrator's Secret is there.
  abbrev with_admin : Pki → Obj Kind.secret → Plan
  with_admin pki tls t =
      component_plan req pki (execute (kubeconfig_write req pki encode tls ∷ []) t)

  with_admin-others :
      (pki : Pki) (tls : Obj Kind.secret) (t : Table) (k : Kind) (key : Key)
      → AllSpare k key (kubeconfig_write req pki encode tls ∷ component_writes req pki)
      → (with_admin pki tls t).1 k key ≡ t k key
  with_admin-others pki tls t k key (first, rest) =
      component_plan-others pki _ k key rest
      ∙ execute-others (kubeconfig_write req pki encode tls ∷ []) t k key (first, tt)

  with_admin-Repeats :
      (pki : Pki) (tls : Obj Kind.secret) (t : Table)
      → Distinct (components pki)
      → Repeats (with_admin pki tls) t
  with_admin-Repeats pki tls t apart =
      let ws = kubeconfig_write req pki encode tls ∷ [] in
      first-Repeats ws (component_plan req pki) t (tt, tt) ((λ o. refl), tt)
        (
          component_plan-others pki (execute ws t) Kind.secret _
              (keeps-AllSpare pki (components pki) Kind.secret _ (λ e. cc e)),
          tt,
        )
        (component_plan-Repeats pki (execute ws t) apart)

  -- After the CA's part.
  abbrev rest : Pki → Plan
  rest pki t = on_secret (t Kind.secret (beside req pki.spec.admin.name)) (with_admin pki) t

  rest-others :
      (pki : Pki) (t : Table) (k : Kind) (key : Key)
      → Kind.secret ≢ k
      → AllSpare k key (component_writes req pki)
      → (rest pki t).1 k key ≡ t k key
  rest-others pki t k key differ spare =
      on_secret-others (beside req pki.spec.admin.name) (with_admin pki) t k key
        λ tls. with_admin-others pki tls t k key ((λ h. differ (h.0)), spare)

  rest-Repeats : (pki : Pki) (t : Table) → Distinct (components pki) → Repeats (rest pki) t
  rest-Repeats pki t apart =
      on_secret-Repeats (beside req pki.spec.admin.name) (with_admin pki) t λ tls _. (
        with_admin-others pki tls t Kind.secret (beside req pki.spec.admin.name) (
          (λ h. ne-kubeconfig_name pki.spec.admin.name (sym (ap (λ k. k.name) (h.1)))),
          keeps-AllSpare pki (components pki) Kind.secret _ (λ e. cc e),
        ),
        with_admin-Repeats pki tls t apart,
      )

  abbrev issue : Pki → Plan
  issue pki t = rest pki (execute (authority_writes req pki) t)

  issue-Repeats :
      (pki : Pki) (t : Table)
      → pki.spec.name ≢ pki.spec.ca.name
      → Distinct (certificates pki)
      → Repeats (issue pki) t
  issue-Repeats pki t issuers ((ca_admin, ca_fresh), (admin_fresh, apart)) =
      let ws = authority_writes req pki in
      let t1 = execute ws t in
      let issuer_kept : (key : Key) → (rest pki t1).1 Kind.issuer key ≡ t1 Kind.issuer key = λ key.
        rest-others pki t1 Kind.issuer key (λ e. cc e)
          (keeps-AllSpare pki (components pki) Kind.issuer key (λ e. cc e)) in
      let certificate_kept = λ (name : String) (fresh : Fresh name (components pki)).
        rest-others pki t1 Kind.certificate (beside req name) (λ e. cc e)
          (Fresh-AllSpare pki name (components pki) fresh) in
      first-Repeats ws (rest pki) t
        (
          ((λ h. cc (h.0)), ((λ h. issuers (sym (ap (λ k. k.name) (h.1)))), ((λ h. cc (h.0)), tt))),
          (
            ((λ h. cc (h.0)), ((λ h. ca_admin (ap (λ k. k.name) (h.1))), tt)),
            (((λ h. cc (h.0)), tt), (tt, tt)),
          ),
        )
        ((λ o. refl), ((λ o. refl), ((λ o. refl), ((λ o. refl), tt))))
        (
          issuer_kept _,
          (certificate_kept _ ca_fresh, (issuer_kept _, (certificate_kept _ admin_fresh, tt))),
        )
        (rest-Repeats pki t1 apart)

  pub plan-Repeats : (t : Table) → Apart req t → Repeats (plan encode req) t
  unfolding plan kubeconfig_of execute root_issuer ca_issuer root_ca admin_cert kube_api_server_cert
      service_accounts_cert kube_controller_manager_cert kube_scheduler_cert konnectivity_cert
  plan-Repeats t apart = on_object-Repeats {k = Kind.pki} req issue t λ pki found.
      let (issuers, certificates_apart) = apart pki found in
      (
        rest-others pki (execute (authority_writes req pki) t) Kind.pki req (λ e. cc e)
              (keeps-AllSpare pki (components pki) Kind.pki req (λ e. cc e))
            ∙ execute-others (authority_writes req pki) t Kind.pki req
                ((λ h. cc (h.0)), ((λ h. cc (h.0)), ((λ h. cc (h.0)), ((λ h. cc (h.0)), tt)))),
        issue-Repeats pki t issuers certificates_apart,
      )
