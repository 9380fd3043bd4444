-- ===== src/Examples/Certificates.antt =====
-- Runs of the PKI reconciler.
use kubeception_operator.Base.{
  ◌≡◌, ◌≢◌, ◌==◌, false, arith, ◌⊎◌, refl, ap, subst, inl, inr, String, String_discrete, ok, [],
  ◌∷◌,
}
use kubeception_operator.Types.Kinds.{Kind}
use kubeception_operator.Types.Meta.{Key}
use kubeception_operator.Platform.Fetch.{done, requeue_after}
use kubeception_operator.Platform.Memory.{open_memory, open_memory-IsHealthy}
use kubeception_operator.Utils.{beside}
use kubeception_operator.Platform.View.{view, stored_in}
use kubeception_operator.Manager.{Controller, run}
use kubeception_operator.Manager.Settles.{NamesApart, run_settles}
use kubeception_operator.Pki.{reconcile}
use kubeception_operator.Pki.Certificates.{admin_cert}
use kubeception_operator.Pki.Runs.{IsEarly, pki_ends, pki_waits}
use kubeception_operator.Pki.Footprint.{pki_kept}
use kubeception_operator.Pki.Healthy.{pki_issues}
use kubeception_operator.Pki.Chained.{reconcile-AllChained}
use kubeception_operator.Pki.Issued.{IsIssued, AllChained, Distinct, certificates, components}
use kubeception_operator.Examples.{
  req, pki, issued, split_cluster, full_cluster, pki_found, pki_full, secret-IsMissing, admin_found,
  generated, lawful, encoders,
}

pki_ends_example :
    ((reconcile open_memory req split_cluster).0 ≡ ok done)
    ⊎ ((reconcile open_memory req split_cluster).0 ≡ ok (requeue_after 3))
pki_ends_example = pki_ends open_memory lawful req pki split_cluster pki_found

pki_waits_example :
    ((reconcile open_memory req split_cluster).0 ≡ ok (requeue_after 3))
    × ((k : Kind) (key : Key)
        → ¬ IsEarly req pki k key
        → open_memory.get k key (reconcile open_memory req split_cluster).1
          ≡ open_memory.get k key split_cluster)
pki_waits_example =
    pki_waits open_memory lawful req pki split_cluster pki_found
      (inl (secret-IsMissing (beside req "admin")))

pki_kept_example :
    open_memory.get Kind.deployment req (reconcile open_memory req full_cluster).1
    ≡ open_memory.get Kind.deployment req full_cluster
pki_kept_example =
    pki_kept open_memory lawful req pki full_cluster pki_full Kind.deployment req (elim [
      | inl (inl h) ↦ cc (h.0)
      | inl (inr (inl h)) ↦ cc (h.0)
      | inl (inr (inr h)) ↦ cc (h.0)
      | inr h ↦ cc (h.0)
    ])

-- Two strings that are compared differ.
differ : (a b : String) → (a == b) ≡ false → a ≢ b
differ a b h e = ground arith

names_differ : Distinct (certificates pki)
unfolding String_discrete
names_differ =
    let n : (a b : String) → (a == b) ≡ false → a ≢ b = differ in
    (
      (n _ _ refl, (n _ _ refl, (n _ _ refl, (n _ _ refl, (n _ _ refl, (n _ _ refl, tt)))))),
      (
        (n _ _ refl, (n _ _ refl, (n _ _ refl, (n _ _ refl, (n _ _ refl, tt))))),
        (
          (n _ _ refl, (n _ _ refl, (n _ _ refl, (n _ _ refl, tt)))),
          (
            (n _ _ refl, (n _ _ refl, (n _ _ refl, tt))),
            ((n _ _ refl, (n _ _ refl, tt)), ((n _ _ refl, tt), (tt, tt))),
          ),
        ),
      ),
    )

pki_issues_example :
    ((reconcile open_memory req full_cluster).0 ≡ ok done)
    × IsIssued open_memory req pki (1 ∷ 3 ∷ 2 ∷ []) (reconcile open_memory req full_cluster).1
pki_issues_example =
    pki_issues open_memory lawful req pki open_memory-IsHealthy (issued "admin") (1 ∷ 3 ∷ 2 ∷ [])
      (generated "admin" _) names_differ (λ e. cc e) (λ e. cc e) full_cluster pki_full admin_found

reconcile-AllChained_example :
    AllChained open_memory req
      (("admin", admin_cert pki) ∷ components pki)
      (reconcile open_memory req full_cluster).1
reconcile-AllChained_example =
    reconcile-AllChained open_memory lawful req pki open_memory-IsHealthy (issued "admin")
      (1 ∷ 3 ∷ 2 ∷ []) (generated "admin" _) names_differ (λ e. cc e) (λ e. cc e) full_cluster
      pki_full admin_found

pki-IsApart : NamesApart Controller.pki req (view open_memory full_cluster)
pki-IsApart p found =
    let same : pki ≡ p = cc (ap (stored_in open_memory) pki_full, found) in
    subst (λ p. (p.spec.name ≢ p.spec.ca.name) × Distinct (certificates p)) same
      ((λ e. cc e), names_differ)

run_settles_example :
    ((run open_memory Controller.pki req (run open_memory Controller.pki req full_cluster).1).0
      ≡ (run open_memory Controller.pki req full_cluster).0)
    × (view open_memory
          (run open_memory Controller.pki req (run open_memory Controller.pki req full_cluster).1).1
        ≡ view open_memory (run open_memory Controller.pki req full_cluster).1)
run_settles_example =
    run_settles open_memory lawful open_memory-IsHealthy encoders Controller.pki req full_cluster
      pki-IsApart
