-- ===== src/Cluster/Growth.antt =====
-- Code that deletes nothing and touches no Deployment, with one rule for each way to build it.
use kubeception_operator.Base.{
  ◌≡◌, ◌≢◌, refl, sym, ap, ◌∙◌, ◌⊎◌, inl, inr, Result, ok, err, Fault, lift, subst, Bool-cases,
}
use kubeception_operator.Types.Meta.{Key, ObjectMeta}
use kubeception_operator.Types.Kinds.{Kind, Obj}
use kubeception_operator.Types.Kinds.Same.{Kind_discrete, Key_discrete}
use kubeception_operator.Platform.Exec.{Exec, pure, continue, ◌>>=◌}
use kubeception_operator.Platform.Interface.{Platform, IsLawful, Differ}
use kubeception_operator.Platform.Fetch.{Ending, or_done, or_requeue}
use kubeception_operator.Platform.Owned.{apply_owned, apply_owned-others, desired-IsBase}
use kubeception_operator.Workloads.{Exists}
use kubeception_operator.Cluster.{Grows}

module _ (P : Platform) where
  open P use {State, Error, get}

  pub Grows-refl : (s : State) → Grows P s s
  Grows-refl s = record { exists = λ k key e. e; deployments = λ key. refl }

  pub Grows-trans : {s t u : State} → Grows P s t → Grows P t u → Grows P s u
  Grows-trans a b = record {
    exists = λ k key e. b.exists k key (a.exists k key e);
    deployments = λ key. b.deployments key ∙ a.deployments key;
  }

  -- What a call may have done to one object: nothing, or it has stored one.
  abbrev pub Left : (k : Kind) → Key → (Obj k → Type 0) → State → State → Type 0
  Left k key Q s s' = (get k key s' ≡ get k key s) ⊎ ((m : Obj k) × Q m × (get k key s' ≡ ok m))

  Left-Exists :
      (k : Kind) (key : Key) (Q : Obj k → Type 0) (s s' : State)
      → Left k key Q s s'
      → Exists P k key s
      → Exists P k key s'
  Left-Exists k key Q s s' (inl same) (o, e) = (o, same ∙ e)
  Left-Exists k key Q s s' (inr (m, _, e)) there = (m, e)

  -- One object may have been stored, and no other one is touched.
  pub Exists-after :
      (k : Kind) (key : Key) (Q : Obj k → Type 0) (s s' : State)
      → Left k key Q s s'
      → ((l : Kind) (key' : Key) → Differ k key l key' → get l key' s' ≡ get l key' s)
      → (l : Kind) (key' : Key) → Exists P l key' s
      → Exists P l key' s'
  Exists-after k key Q s s' left others l key' (o, e) = elim (Kind_discrete k l) [
    | no n ↦ (o, others l key' (λ p. n (p.0)) ∙ e)
    | yes p ↦ elim (Key_discrete key key') [
      | no n ↦ (o, others l key' (λ p. n (p.1)) ∙ e)
      | yes q ↦
          let there : Exists P k key s = rw (q) (subst (λ l. Exists P l key' s) (sym p) (o, e)) in
          subst (λ l. Exists P l key' s') p (rw (← q) (Left-Exists k key Q s s' left there))
    ]
  ]

  -- However the code ends, it has deleted nothing and touched no Deployment.
  pub record Grown {A : Type 0} (m : Exec State Error A) : Type 0 where
    pub grows : (s : State) → Grows P s (m s).1

module _ {P : Platform} where
  open P use {State, Error, get}

  module _ {A : Type 0} where
    pub Grown-pure : (a : A) → Grown P {A = A} (pure a)
    Grown-pure a = record { grows = λ s. Grows-refl P s }

  module _ {A B : Type 0} where
    Grown-continue :
        (r : Result (Fault Error) A) (f : A → Exec State Error B)
        → ((a : A) → Grown P (f a))
        → Grown P (continue r f)
    Grown-continue (ok a) f t = t a
    Grown-continue (err e) f t = record { grows = λ s. Grows-refl P s }

    pub Grown-bind :
        (m : Exec State Error A) (f : A → Exec State Error B)
        → Grown P m
        → ((a : A) → Grown P (f a))
        → Grown P (m >>= f)
    Grown-bind m f tm tf = record {
      grows = λ s. Grows-trans P (tm.grows s) ((Grown-continue (m s).0 f tf).grows (m s).1);
    }

  module _ {A : Type 0} where
    pub Grown-or_done :
        (r : State → Result Error A) (f : A → Exec State Error Ending)
        → ((a : A) → Grown P (f a))
        → Grown P (λ s. or_done P (r s) f s)
    Grown-or_done r f t = record { grows = λ s. split (r s) s }
      where
        split : (x : Result Error A) (s : State) → Grows P s (or_done P x f s).1
        split (ok a) s = (t a).grows s
        split (err e) s = elim (Bool-cases (P.is_not_found e)) [
          | inl missing ↦ rw missing (Grows-refl P s)
          | inr broken ↦ rw broken (Grows-refl P s)
        ]

    pub Grown-or_requeue :
        (r : State → Result Error A) (f : A → Exec State Error Ending)
        → ((a : A) → Grown P (f a))
        → Grown P (λ s. or_requeue P (r s) f s)
    Grown-or_requeue r f t = record { grows = λ s. split (r s) s }
      where
        split : (x : Result Error A) (s : State) → Grows P s (or_requeue P x f s).1
        split (ok a) s = (t a).grows s
        split (err e) s = Grows-refl P s

module _ (P : Platform) (L : IsLawful P) where
  open P use {State, Error, get, set_controller_reference, create_or_patch}

  module _ (owner : Kind) (meta : ObjectMeta) (k : Kind) (o : Obj k)
      (f : Obj k → Result (Fault Error) (Obj k)) (s : State) where
    -- The object is one that the MutateFn has made.
    abbrev pub Made : Obj k → Type 0
    Made m = (base : Obj k) × (f base ≡ ok m)

    attempted :
        (c : Obj k) (r : Result (Fault Error) (Obj k))
        → (create_or_patch k c f s).0 ≡ r
        → Left P k c.meta.key Made s (create_or_patch k c f s).1
    attempted c (ok o') e =
        let (wanted, at) = L.written k c f s o' e in
        let (base, _, made) = desired-IsBase P k c f s o' (get k c.meta.key s) refl wanted in
        inr (o', (base, made), at)
    attempted c (err x) e = elim (L.failed k c f s x e) [
      | inl same ↦ inl same
      | inr (m, wanted, at) ↦
          let (base, _, made) = desired-IsBase P k c f s m (get k c.meta.key s) refl wanted in
          inr (m, (base, made), at)
    ]

    called :
        (r : Result Error (Obj k))
        → set_controller_reference owner meta k o ≡ r
        → Left P k o.meta.key Made s (continue (lift r) (λ c. create_or_patch k c f) s).1
    called (ok c) e =
        let same : c.meta.key ≡ o.meta.key =
          ap (λ (x : Obj k). x.meta.key) (L.referenced owner meta k o c e) in
        subst (λ key. Left P k key Made s (create_or_patch k c f s).1) same
          (attempted c (create_or_patch k c f s).0 refl)
    called (err x) e = inl refl

    -- However the call ends, the object is as it was or as the MutateFn has made it.
    pub apply_owned-Left : Left P k o.meta.key Made s (apply_owned P owner meta k o f s).1
    unfolding apply_owned
    apply_owned-Left = called (set_controller_reference owner meta k o) refl

    pub apply_owned-Grows : k ≢ Kind.deployment → Grows P s (apply_owned P owner meta k o f s).1
    apply_owned-Grows n =
        let others = apply_owned-others P L owner meta k o f s in
        record {
          exists = Exists-after P k o.meta.key Made s _ apply_owned-Left others;
          deployments = λ key. others Kind.deployment key (λ e. n (e.0));
        }

  pub Grown-apply_owned :
      (owner : Kind) (meta : ObjectMeta) (k : Kind) (o : Obj k)
      (f : Obj k → Result (Fault Error) (Obj k))
      → k ≢ Kind.deployment
      → Grown P (apply_owned P owner meta k o f)
  Grown-apply_owned owner meta k o f n = record {
    grows = λ s. apply_owned-Grows owner meta k o f s n;
  }
