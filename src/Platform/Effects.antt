-- ===== src/Platform/Effects.antt =====
-- Which objects code may touch that is built from writes of objects: one rule for each way to build
-- it.
use kubeception_operator.Base.{◌≡◌, refl, ◌∙◌, Result, ok, err, Fault, arith}
use kubeception_operator.Types.Meta.{Key, ObjectMeta}
use kubeception_operator.Types.Kinds.{Kind, Obj}
use kubeception_operator.Platform.Exec.{Exec, pure, raise, call, continue, ◌>>=◌}
use kubeception_operator.Platform.Interface.{Platform, IsLawful}
use kubeception_operator.Platform.Fetch.{Ending, or_done, or_requeue}
use kubeception_operator.Platform.Owned.{apply_owned, apply_owned-others}

module _ (P : Platform) (Allowed : Kind → Key → Type 0) where
  open P use {State, Error, get}

  -- However the code ends, an object that is not allowed is as it was.
  pub record Touches {A : Type 0} (m : Exec State Error A) : Type 0 where
    pub kept :
        (s : State) (l : Kind) (key : Key) → ¬ Allowed l key → get l key (m s).1 ≡ get l key s

module _ {P : Platform} {Allowed : Kind → Key → Type 0} where
  open P use {State, Error, get}

  module _ {A : Type 0} where
    pub Touches-pure : (a : A) → Touches P Allowed {A = A} (pure a)
    Touches-pure a = record { kept = λ s l key d. refl }

    pub Touches-raise : (e : Fault Error) → Touches P Allowed {A = A} (raise e)
    Touches-raise e = record { kept = λ s l key d. refl }

    pub Touches-call : (r : Result Error A) → Touches P Allowed {A = A} (call r)
    Touches-call r = record { kept = λ s l key d. refl }

  module _ {A B : Type 0} where
    Touches-continue :
        (r : Result (Fault Error) A) (f : A → Exec State Error B)
        → ((a : A) → Touches P Allowed (f a))
        → Touches P Allowed (continue r f)
    Touches-continue (ok a) f t = t a
    Touches-continue (err e) f t = record { kept = λ s l key d. refl }

    pub Touches-bind :
        (m : Exec State Error A) (f : A → Exec State Error B)
        → Touches P Allowed m
        → ((a : A) → Touches P Allowed (f a))
        → Touches P Allowed (m >>= f)
    Touches-bind m f tm tf = record {
      kept = λ s l key d. (Touches-continue (m s).0 f tf).kept (m s).1 l key d ∙ tm.kept s l key d;
    }

  -- A run that begins with a Get.
  module _ {A : Type 0} where
    pub Touches-or_done :
        (r : State → Result Error A) (f : A → Exec State Error Ending)
        → ((a : A) → Touches P Allowed (f a))
        → Touches P Allowed (λ s. or_done P (r s) f s)
    Touches-or_done r f t = record { kept = λ s l key d. split (r s) s l key d }
      where
        split :
            (x : Result Error A) (s : State) (l : Kind) (key : Key)
            → ¬ Allowed l key
            → get l key (or_done P x f s).1 ≡ get l key s
        split (ok a) s l key d = (t a).kept s l key d
        split (err e) s l key d = ground arith

    pub Touches-or_requeue :
        (r : State → Result Error A) (f : A → Exec State Error Ending)
        → ((a : A) → Touches P Allowed (f a))
        → Touches P Allowed (λ s. or_requeue P (r s) f s)
    Touches-or_requeue r f t = record { kept = λ s l key d. split (r s) s l key d }
      where
        split :
            (x : Result Error A) (s : State) (l : Kind) (key : Key)
            → ¬ Allowed l key
            → get l key (or_requeue P x f s).1 ≡ get l key s
        split (ok a) s l key d = (t a).kept s l key d
        split (err e) s l key d = refl

module _ {P : Platform} {Allowed : Kind → Key → Type 0} (L : IsLawful P) where
  open P use {State, Error}

  -- A write touches its own object.
  pub Touches-apply_owned :
      (owner : Kind) (meta : ObjectMeta) (k : Kind) (o : Obj k)
      (f : Obj k → Result (Fault Error) (Obj k))
      → Allowed k o.meta.key
      → Touches P Allowed (apply_owned P owner meta k o f)
  Touches-apply_owned owner meta k o f a = record {
    kept = λ s l key d.
        apply_owned-others P L owner meta k o f s l key (λ same. d (rw (← same.0, ← same.1) a));
  }
