-- ===== src/Platform/Panics.antt =====
-- Code that does not panic, with one rule for each way to build it.
use kubeception_operator.Base.{◌≢◌, Result, ok, err, Fault, panic, arith, error}
use kubeception_operator.Types.Meta.{ObjectMeta}
use kubeception_operator.Types.Kinds.{Kind, Obj}
use kubeception_operator.Platform.Exec.{Exec, pure, raise, continue, ◌>>=◌}
use kubeception_operator.Platform.Interface.{Platform, IsLawful}
use kubeception_operator.Platform.Fetch.{Ending, or_done, or_requeue}
use kubeception_operator.Platform.Owned.{apply_owned, apply_owned-panic}

-- No state makes the code panic.
pub record NoPanic {S E A : Type 0} (m : Exec S E A) : Type 0 where
  pub sound : (s : S) → (m s).0 ≢ err panic

module _ {S E A : Type 0} where
  pub NoPanic-pure : (a : A) → NoPanic {S = S} {E = E} (pure a)
  NoPanic-pure a = record { sound = λ s h. cc h }

  pub NoPanic-error : (e : E) → NoPanic {S = S} {A = A} (raise (error e))
  NoPanic-error e = record { sound = λ s h. cc h }

module _ {S E A B : Type 0} where
  NoPanic-continue :
      (r : Result (Fault E) A) (f : A → Exec S E B) (s : S)
      → r ≢ err panic
      → ((a : A) → NoPanic (f a))
      → (continue r f s).0 ≢ err panic
  NoPanic-continue (ok a) f s n t = (t a).sound s
  NoPanic-continue (err e) f s n t = λ h. n (cc h)

  pub NoPanic-bind :
      (m : Exec S E A) (f : A → Exec S E B)
      → NoPanic m
      → ((a : A) → NoPanic (f a))
      → NoPanic (m >>= f)
  NoPanic-bind m f tm tf = record {
    sound = λ s. NoPanic-continue (m s).0 f (m s).1 (tm.sound s) tf;
  }

module _ (P : Platform) {A : Type 0} (f : A → Exec P.State P.Error Ending) where
  open P use {State, Error}

  or_done-ne-panic :
      (r : Result Error A) (s : State) → ((a : A) → NoPanic (f a)) → (or_done P r f s).0 ≢ err panic
  or_done-ne-panic (ok a) s t = (t a).sound s
  or_done-ne-panic (err e) s t = λ h. ground arith

  or_requeue-ne-panic :
      (r : Result Error A) (s : State)
      → ((a : A) → NoPanic (f a))
      → (or_requeue P r f s).0 ≢ err panic
  or_requeue-ne-panic (ok a) s t = (t a).sound s
  or_requeue-ne-panic (err e) s t = λ h. cc h

  pub NoPanic-or_done :
      (r : State → Result Error A) → ((a : A) → NoPanic (f a)) → NoPanic (λ s. or_done P (r s) f s)
  NoPanic-or_done r t = record { sound = λ s. or_done-ne-panic (r s) s t }

  pub NoPanic-or_requeue :
      (r : State → Result Error A)
      → ((a : A) → NoPanic (f a))
      → NoPanic (λ s. or_requeue P (r s) f s)
  NoPanic-or_requeue r t = record { sound = λ s. or_requeue-ne-panic (r s) s t }

module _ (P : Platform) (L : IsLawful P) where
  open P use {Error}

  -- A write panics only if its MutateFn does.
  pub NoPanic-apply_owned :
      (owner : Kind) (meta : ObjectMeta) (k : Kind) (o : Obj k)
      (f : Obj k → Result (Fault Error) (Obj k))
      → ((base : Obj k) → f base ≢ err panic)
      → NoPanic (apply_owned P owner meta k o f)
  NoPanic-apply_owned owner meta k o f n = record {
    sound = λ s h. let (base, p) = apply_owned-panic P L owner meta k o f s h in n base p;
  }
