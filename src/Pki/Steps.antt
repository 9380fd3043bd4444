-- ===== src/Pki/Steps.antt =====
-- A step of the PKI reconciler ignores its error: the run goes on, and the step has written its
-- object or not.
use kubeception_operator.Base.{
  String, ◌≡◌, ◌≢◌, refl, sym, ap, subst, Result, ok, err, Fault, error, panic,
}
use kubeception_operator.Types.Meta.{Key}
use kubeception_operator.Types.Crd.{Pki}
use kubeception_operator.Types.Kinds.{Kind, Obj}
use kubeception_operator.Types.Kinds.Zero.{fresh}
use kubeception_operator.Platform.Exec.{Exec, continue, ◌>>◌}
use kubeception_operator.Platform.Interface.{Platform, IsLawful, IsHealthy, Differ}
use kubeception_operator.Platform.Owned.{apply_owned, apply_owned-stored, apply_owned-others}
use kubeception_operator.Platform.Panics.{NoPanic-apply_owned}
use kubeception_operator.Platform.Healthy.{Succeeds-apply_owned}
use kubeception_operator.Utils.{beside}
use kubeception_operator.Pki.{forgive, ignoring, apply}

-- The run has ended without an error, and its result and its state meet `Q`.
pub record Ends {S E A : Type 0} (x : Result (Fault E) A × S) (Q : A → S → Type 0) : Type 0 where
  pub result : A
  pub returns : x.0 ≡ ok result
  pub holds : Q result x.1

forgive-ok : {E A : Type 0} (r : Result (Fault E) A) → r ≢ err panic → forgive r ≡ ok tt
forgive-ok (ok a) n = refl
forgive-ok (err (error e)) n = refl
forgive-ok (err panic) n = absurd (n refl)

module _ (P : Platform) (L : IsLawful P) (req : Key) (pki : Pki) where
  open P use {State, Error, get}

  abbrev pub Others : Kind → String → State → State → Type 0
  Others k name s s1 =
      (l : Kind) (key : Key) → Differ k (beside req name) l key → get l key s1 ≡ get l key s

  module _ (k : Kind) (name : String) (f : Obj k → Result (Fault Error) (Obj k)) where
    apply-returns :
        ((b : Obj k) → f b ≢ err panic) → (s : State) → (apply P req pki k name f s).0 ≡ ok tt
    unfolding apply ignoring
    apply-returns n s =
        forgive-ok (apply_owned P Kind.pki pki.meta k (fresh k req.namespace name) f s).0
          ((NoPanic-apply_owned P L Kind.pki pki.meta k (fresh k req.namespace name) f n).sound s)

    pub apply-Others : (s : State) → Others k name s (apply P req pki k name f s).1
    unfolding apply ignoring
    apply-Others s = apply_owned-others P L Kind.pki pki.meta k (fresh k req.namespace name) f s

    -- Where no call fails, the object is stored.
    apply-stored :
        IsHealthy P
        → ((b : Obj k) → (m : Obj k) × (f b ≡ ok m) × (m.meta.key ≡ b.meta.key))
        → (s : State)
        → (o base : Obj k) × (f base ≡ ok o)
          × (get k (beside req name) (apply P req pki k name f s).1 ≡ ok o)
    unfolding apply ignoring
    apply-stored H total s =
        let o = fresh k req.namespace name in
        let (o', wrote) = (Succeeds-apply_owned P L H Kind.pki pki.meta k o f total).result s in
        let (base, _, made_by, stored) =
          apply_owned-stored P L Kind.pki pki.meta k o f s o' wrote in
        (o', base, made_by, stored)

    module _ {A : Type 0} {Q : A → State → Type 0} (next : Exec State Error A) (s : State) where
      -- Whatever the step did, the run goes on.
      pub Ends-apply :
          ((b : Obj k) → f b ≢ err panic)
          → ((s1 : State) → Others k name s s1 → Ends (next s1) Q)
          → Ends ((apply P req pki k name f >> next) s) Q
      Ends-apply n goes_on =
          let s1 = (apply P req pki k name f s).1 in
          subst (λ x. Ends x Q) (sym (ap (λ r. continue r (λ _. next) s1) (apply-returns n s)))
            (goes_on s1 (apply-Others s))

      -- The step did what it was asked for.
      pub Ends-write :
          IsHealthy P
          → ((b : Obj k) → (m : Obj k) × (f b ≡ ok m) × (m.meta.key ≡ b.meta.key))
          → ((s1 : State) (o base : Obj k)
              → f base ≡ ok o
              → get k (beside req name) s1 ≡ ok o
              → Others k name s s1
              → Ends (next s1) Q)
          → Ends ((apply P req pki k name f >> next) s) Q
      Ends-write H total goes_on =
          let s1 = (apply P req pki k name f s).1 in
          let (o, base, made_by, stored) = apply-stored H total s in
          subst (λ x. Ends x Q)
            (sym (
              ap (λ r. continue r (λ _. next) s1)
                (apply-returns (λ b p. let (m, e, _) = total b in cc (p, e)) s)))
            (goes_on s1 o base made_by stored (apply-Others s))
