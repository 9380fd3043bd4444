-- ===== src/Platform/Owned.antt =====
-- `CreateOrPatch` of the reconcilers: an object is given its controller and written, and what that
-- leaves in a lawful cluster.
use kubeception_operator.Base.{
  ◌≡◌, refl, sym, ap, ◌∙◌, ◌⊎◌, inl, inr, true, Result, ok, err, Fault, lift, some, arith,
  Bool-cases,
}
use kubeception_operator.Types.Meta.{Key, ObjectMeta}
use kubeception_operator.Types.Kinds.{Kind, Obj, kind_name}
use kubeception_operator.Platform.Exec.{Exec, call, continue, ◌>>=◌}
use kubeception_operator.Platform.Interface.{Platform, IsLawful, Differ, desired_from}

-- The object with its owner as the controller.
abbrev pub controlled : Kind → ObjectMeta → (k : Kind) → Obj k → Obj k
controlled owner meta k o = record o {
  meta = record o.meta {
    controller = some (record { kind = kind_name owner; name = meta.key.name });
  };
}

module _ (P : Platform) where
  open P use {State, Error, get, is_not_found, set_controller_reference, create_or_patch}

  -- ctrl.SetControllerReference, then controllerutil.CreateOrPatch.
  unfoldable pub apply_owned :
      Kind
      → ObjectMeta
      → (k : Kind) → Obj k
      → (Obj k → Result (Fault Error) (Obj k))
      → Exec State Error (Obj k)
  apply_owned owner meta k o f = do
    o' ← call (set_controller_reference owner meta k o)
    create_or_patch k o' f

  -- What the MutateFn is run on: the stored object, or the given one if nothing is stored.
  abbrev pub IsBase : (k : Kind) → Obj k → State → Obj k → Type 0
  IsBase k o s base =
      (get k o.meta.key s ≡ ok base)
      ⊎ ((base ≡ o) × ((e : Error) × (get k o.meta.key s ≡ err e) × (is_not_found e ≡ true)))

  pub desired-IsBase :
      (k : Kind) (o : Obj k) (f : Obj k → Result (Fault Error) (Obj k)) (s : State) (m : Obj k)
      (r : Result Error (Obj k))
      → get k o.meta.key s ≡ r
      → desired_from P k o f r ≡ ok m
      → (base : Obj k) × IsBase k o s base × (f base ≡ ok m)
  desired-IsBase k o f s m (ok stored) found h = (stored, inl found, h)
  desired-IsBase k o f s m (err e) found h = elim (Bool-cases (is_not_found e)) [
    | inl absent ↦ (o, inr (refl, (e, found, absent)), rw absent at h)
    | inr broken ↦ absurd (ground arith)
  ]

  desired-panic :
      (k : Kind) (o : Obj k) (f : Obj k → Result (Fault Error) (Obj k)) (r : Result Error (Obj k))
      → desired_from P k o f r ≡ err Fault.panic
      → (base : Obj k) × (f base ≡ err Fault.panic)
  desired-panic k o f (ok stored) h = (stored, h)
  desired-panic k o f (err e) h = elim (Bool-cases (is_not_found e)) [
    | inl absent ↦ (o, rw absent at h)
    | inr broken ↦ absurd (ground arith)
  ]

  module _ (L : IsLawful P) where
    module _ (owner : Kind) (meta : ObjectMeta) (k : Kind) (o : Obj k)
        (f : Obj k → Result (Fault Error) (Obj k)) (s : State) where
      abbrev Stored : Obj k → Result (Fault Error) (Obj k) × State → Type 0
      Stored o' (_, s') =
          (base : Obj k) × IsBase k (controlled owner meta k o) s base
          × (f base ≡ ok o')
          × (get k o.meta.key s' ≡ ok o')

      write-Stored :
          (o' : Obj k) (c : Obj k)
          → c ≡ controlled owner meta k o
          → (create_or_patch k c f s).0 ≡ ok o'
          → Stored o' (create_or_patch k c f s)
      write-Stored o' c e h =
          let c' = controlled owner meta k o in
          let w = L.written k c' f s o' (rw e at h) in
          let (base, is_base, made) = desired-IsBase k c' f s o' (get k c'.meta.key s) refl w.0 in
          rw e (base, is_base, made, w.1)

      call-Stored :
          (o' : Obj k) (r : Result Error (Obj k))
          → set_controller_reference owner meta k o ≡ r
          → (continue (lift r) (λ c. create_or_patch k c f) s).0 ≡ ok o'
          → Stored o' (continue (lift r) (λ c. create_or_patch k c f) s)
      call-Stored o' (ok c) e h = write-Stored o' c (L.referenced owner meta k o c e) h
      call-Stored o' (err c) e h = cc

      -- After a write without an error the object is what the MutateFn made of its base.
      pub apply_owned-stored :
          (o' : Obj k)
          → (apply_owned owner meta k o f s).0 ≡ ok o'
          → (base : Obj k) × IsBase k (controlled owner meta k o) s base
            × (f base ≡ ok o')
            × (get k o.meta.key (apply_owned owner meta k o f s).1 ≡ ok o')
      unfolding apply_owned
      apply_owned-stored o' h = call-Stored o' (set_controller_reference owner meta k o) refl h

      others_from :
          (l : Kind) (key : Key) (r : Result Error (Obj k))
          → set_controller_reference owner meta k o ≡ r
          → Differ k o.meta.key l key
          → get l key (continue (lift r) (λ c. create_or_patch k c f) s).1 ≡ get l key s
      others_from l key (ok c) e d =
          let same = ap (λ (x : Obj k). x.meta.key) (L.referenced owner meta k o c e) in
          L.others k c f s l key (λ p. d (p.0, sym same ∙ p.1))
      others_from l key (err c) e d = refl

      -- No other object is touched.
      pub apply_owned-others :
          (l : Kind) (key : Key)
          → Differ k o.meta.key l key
          → get l key (apply_owned owner meta k o f s).1 ≡ get l key s
      unfolding apply_owned
      apply_owned-others l key d =
          others_from l key (set_controller_reference owner meta k o) refl d

      -- A panic comes from the MutateFn.
      panic_from :
          (r : Result Error (Obj k))
          → (continue (lift r) (λ c. create_or_patch k c f) s).0 ≡ err Fault.panic
          → (base : Obj k) × (f base ≡ err Fault.panic)
      panic_from (ok c) h = desired-panic k c f (get k c.meta.key s) (L.no_panic k c f s h)
      panic_from (err c) h = cc

      pub apply_owned-panic :
          (apply_owned owner meta k o f s).0 ≡ err Fault.panic
          → (base : Obj k) × (f base ≡ err Fault.panic)
      unfolding apply_owned
      apply_owned-panic h = panic_from (set_controller_reference owner meta k o) h
