-- ===== src/Pki/Runs.antt =====
-- How a run of the PKI reconciler ends.
use kubeception_operator.Base.{
  ℕ, List, String, ◌≡◌, ◌≢◌, refl, ◌∙◌, ◌⊎◌, inl, inr, Result, ok, err, panic, true, ◌==◌,
  Bool-cases, arith,
}
use kubeception_operator.Types.Meta.{Key}
use kubeception_operator.Types.Crd.{Pki}
use kubeception_operator.Types.CertManager.{IssuerSpec, CertificateSpec}
use kubeception_operator.Types.Kinds.{Kind, Obj}
use kubeception_operator.Platform.Exec.{Exec, pure}
use kubeception_operator.Platform.Interface.{Platform, IsLawful}
use kubeception_operator.Platform.Fetch.{
  Ending, done, requeue_after, or_done, or_requeue, with_secret, IsMissing,
}
use kubeception_operator.Utils.{beside, kubeconfig_name, with_kubeconfig}
use kubeception_operator.Pki.{
  mutate_issuer, mutate_certificate, mutate_kubeconfig, sync_components, sync_admin, sync,
  reconcile,
}
use kubeception_operator.Pki.Steps.{Ends, Others, Ends-apply}

mutate_issuer-ne-panic :
    {E : Type 0} (spec : IssuerSpec) (b : Obj Kind.issuer)
    → mutate_issuer {E = E} spec b ≢ err panic
unfolding mutate_issuer
mutate_issuer-ne-panic spec b h = cc h

mutate_certificate-ne-panic :
    {E : Type 0} (spec : CertificateSpec) (b : Obj Kind.certificate)
    → mutate_certificate {E = E} spec b ≢ err panic
unfolding mutate_certificate
mutate_certificate-ne-panic spec b h = cc h

with_kubeconfig-ne-panic :
    {E : Type 0} (o : Obj Kind.secret) (r : Result E (List ℕ)) → with_kubeconfig o r ≢ err panic
with_kubeconfig-ne-panic o (ok k) h = cc h
with_kubeconfig-ne-panic o (err e) h = cc h

mutate_kubeconfig-ne-panic :
    (P : Platform) (pki : Pki) (tls b : Obj Kind.secret) → mutate_kubeconfig P pki tls b ≢ err panic
unfolding mutate_kubeconfig
mutate_kubeconfig-ne-panic P pki tls b = with_kubeconfig-ne-panic b _

-- What a run may write before it has the administrator's certificate and the address.
abbrev pub IsEarly : Key → Pki → Kind → Key → Type 0
IsEarly req pki k key =
    ((k ≡ Kind.issuer) × ((key ≡ beside req pki.spec.name) ⊎ (key ≡ beside req pki.spec.ca.name)))
    ⊎ (((k ≡ Kind.certificate)
          × ((key ≡ beside req pki.spec.ca.name) ⊎ (key ≡ beside req pki.spec.admin.name)))
        ⊎ ((k ≡ Kind.secret) × (key ≡ beside req (kubeconfig_name pki.spec.admin.name))))

module _ (P : Platform) (key : Key) (f : Obj Kind.secret → Exec P.State P.Error Ending) where
  open P use {State, Error, get}

  pub Ends-with_secret :
      {Q : Ending → State → Type 0} (s : State)
      → ((tls : Obj Kind.secret) → get Kind.secret key s ≡ ok tls → Ends (f tls s) Q)
      → (IsMissing P key s → Q (requeue_after 3) s)
      → Ends (with_secret P key f s) Q
  Ends-with_secret {Q} s there missing = split (get Kind.secret key s) refl
    where
      split :
          (r : Result Error (Obj Kind.secret))
          → get Kind.secret key s ≡ r
          → Ends (or_requeue P r f s) Q
      split (ok tls) e = there tls e
      split (err c) e = record { result = requeue_after 3; returns = refl; holds = missing (c, e) }

pub Ends-pure :
    {S E A : Type 0} {Q : A → S → Type 0} (a : A) (s : S) → Q a s → Ends {E = E} (pure a s) Q
Ends-pure a s q = record { result = a; returns = refl; holds = q }

module _ (P : Platform) (L : IsLawful P) (req : Key) (pki : Pki) where
  open P use {State, Error, get}

  IsOver : Ending → State → Type 0
  IsOver a s = (a ≡ done) ⊎ (a ≡ requeue_after 3)

  sync_components-IsOver : (s : State) → Ends (sync_components P req pki s) IsOver
  unfolding sync_components IsOver
  sync_components-IsOver s =
      Ends-apply P L req pki _ _ _ _ _ (mutate_certificate-ne-panic _) λ s1 _.
        Ends-apply P L req pki _ _ _ _ _ (mutate_certificate-ne-panic _) λ s2 _.
          Ends-apply P L req pki _ _ _ _ _ (mutate_certificate-ne-panic _) λ s3 _.
            Ends-apply P L req pki _ _ _ _ _ (mutate_certificate-ne-panic _) λ s4 _.
              Ends-apply P L req pki _ _ _ _ _ (mutate_certificate-ne-panic _)
                λ s5 _. Ends-pure done s5 (inl refl)

  sync_admin-IsOver : (tls : Obj Kind.secret) (s : State) → Ends (sync_admin P req pki tls s) IsOver
  unfolding sync_admin IsOver
  sync_admin-IsOver tls s =
      Ends-apply P L req pki _ _ _ _ _ (mutate_kubeconfig-ne-panic P pki tls) λ s1 _.
        elim (Bool-cases (pki.spec.control_plane_ip == "")) [
          | inl empty ↦ rw empty (Ends-pure (requeue_after 3) s1 (inr refl))
          | inr filled ↦ rw filled (sync_components-IsOver s1)
        ]

  sync-IsOver : (s : State) → Ends (sync P req pki s) IsOver
  unfolding sync IsOver
  sync-IsOver s = Ends-apply P L req pki _ _ _ _ _ (mutate_issuer-ne-panic _) λ s1 _.
      Ends-apply P L req pki _ _ _ _ _ (mutate_certificate-ne-panic _) λ s2 _.
        Ends-apply P L req pki _ _ _ _ _ (mutate_issuer-ne-panic _) λ s3 _.
          Ends-apply P L req pki _ _ _ _ _ (mutate_certificate-ne-panic _)
            λ s4 _. Ends-with_secret P _ _ s4 (λ tls _. sync_admin-IsOver tls s4) (λ _. inr refl)

  -- Once the PKI was read, a run reports no error, whichever of its writes fail: it ends, or it
  -- asks for another run in three seconds.
  pub pki_ends :
      (s : State)
      → get Kind.pki req s ≡ ok pki
      → ((reconcile P req s).0 ≡ ok done) ⊎ ((reconcile P req s).0 ≡ ok (requeue_after 3))
  unfolding reconcile IsOver
  pki_ends s found =
      let over = sync-IsOver s in
      rw (found, or_done)
        (elim over.holds [
          | inl e ↦ inl (rw e at over.returns)
          | inr e ↦ inr (rw e at over.returns)
        ])

  -- Nothing has changed since `s` but what a run may write early.
  abbrev Kept : State → State → Type 0
  Kept s s' = (k : Kind) (key : Key) → ¬ IsEarly req pki k key → get k key s' ≡ get k key s

  keep_on :
      (k : Kind) (name : String) (s s1 s2 : State)
      → IsEarly req pki k (beside req name)
      → Kept s s1
      → Others P L req pki k name s1 s2
      → Kept s s2
  keep_on k name s s1 s2 early kept others l key n =
      others l key (λ same. n (rw (← same.0, ← same.1) early)) ∙ kept l key n

  IsWaiting : State → Ending → State → Type 0
  IsWaiting s a s' = (a ≡ requeue_after 3) × Kept s s'

  sync_admin_waits :
      (tls : Obj Kind.secret) (s s4 : State)
      → Kept s s4
      → pki.spec.control_plane_ip ≡ ""
      → Ends (sync_admin P req pki tls s4) (IsWaiting s)
  unfolding sync_admin IsWaiting
  sync_admin_waits tls s s4 kept none =
      Ends-apply P L req pki _ _ _ _ _ (mutate_kubeconfig-ne-panic P pki tls) λ s5 others.
        let no_ip : (pki.spec.control_plane_ip == "") ≡ true = ground arith in
        rw no_ip (
          Ends-pure (requeue_after 3) s5
            (refl, keep_on Kind.secret _ s s4 s5 (inr (inr (refl, refl))) kept others))

  secrets_kept :
      (s s1 s2 s3 s4 : State)
      → Others P L req pki Kind.issuer pki.spec.name s s1
      → Others P L req pki Kind.certificate pki.spec.ca.name s1 s2
      → Others P L req pki Kind.issuer pki.spec.ca.name s2 s3
      → Others P L req pki Kind.certificate pki.spec.admin.name s3 s4
      → (key : Key) → get Kind.secret key s4 ≡ get Kind.secret key s
  secrets_kept s s1 s2 s3 s4 k1 k2 k3 k4 key =
      k4 Kind.secret key (λ e. cc (e.0))
      ∙ (k3 Kind.secret key (λ e. cc (e.0))
          ∙ (k2 Kind.secret key (λ e. cc (e.0)) ∙ k1 Kind.secret key (λ e. cc (e.0))))

  waits_at :
      (s s4 : State)
      → Kept s s4
      → ((key : Key) → get Kind.secret key s4 ≡ get Kind.secret key s)
      → IsMissing P (beside req pki.spec.admin.name) s ⊎ (pki.spec.control_plane_ip ≡ "")
      → Ends
          (with_secret P (beside req pki.spec.admin.name) (sync_admin P req pki) s4)
          (IsWaiting s)
  unfolding IsWaiting
  waits_at s s4 kept same (inl (e, missing)) =
      Ends-with_secret P _ _ s4
        (λ tls found. cc (same (beside req pki.spec.admin.name), missing, found))
        (λ _. (refl, kept))
  waits_at s s4 kept same (inr none) =
      Ends-with_secret P _ _ s4 (λ tls _. sync_admin_waits tls s s4 kept none) (λ _. (refl, kept))

  sync_waits :
      (s : State)
      → IsMissing P (beside req pki.spec.admin.name) s ⊎ (pki.spec.control_plane_ip ≡ "")
      → Ends (sync P req pki s) (IsWaiting s)
  unfolding sync
  sync_waits s reason = Ends-apply P L req pki _ _ _ _ _ (mutate_issuer-ne-panic _) λ s1 k1.
      Ends-apply P L req pki _ _ _ _ _ (mutate_certificate-ne-panic _) λ s2 k2.
        Ends-apply P L req pki _ _ _ _ _ (mutate_issuer-ne-panic _) λ s3 k3.
          Ends-apply P L req pki _ _ _ _ _ (mutate_certificate-ne-panic _) λ s4 k4.
            let kept1 = keep_on Kind.issuer _ s s s1 (inl (refl, inl refl)) (λ _ _ _. refl) k1 in
            let kept2 = keep_on Kind.certificate _ s s1 s2 (inr (inl (refl, inl refl))) kept1 k2 in
            let kept3 = keep_on Kind.issuer _ s s2 s3 (inl (refl, inr refl)) kept2 k3 in
            let kept4 = keep_on Kind.certificate _ s s3 s4 (inr (inl (refl, inr refl))) kept3 k4 in
            let same = secrets_kept s s1 s2 s3 s4 k1 k2 k3 k4 in waits_at s s4 kept4 same reason

  -- While the administrator's Secret is missing or the PKI has no control plane address, a run asks
  -- for another one in three seconds and writes at most the two issuers, the certificates of the CA
  -- and of the administrator, and the administrator's kubeconfig.
  pub pki_waits :
      (s : State)
      → get Kind.pki req s ≡ ok pki
      → IsMissing P (beside req pki.spec.admin.name) s ⊎ (pki.spec.control_plane_ip ≡ "")
      → ((reconcile P req s).0 ≡ ok (requeue_after 3))
        × ((k : Kind) (key : Key)
            → ¬ IsEarly req pki k key
            → get k key (reconcile P req s).1 ≡ get k key s)
  unfolding reconcile IsWaiting
  pki_waits s found reason =
      let waits = sync_waits s reason in
      let (e, kept) = waits.holds in rw (found, or_done) (rw e at waits.returns, kept)
