-- ===== src/Platform/Gets.antt =====
-- Runs that begin with the Get of a Secret.
use kubeception_operator.Base.{◌≡◌, refl, Result, ok, err}
use kubeception_operator.Types.Meta.{Key}
use kubeception_operator.Types.Kinds.{Kind, Obj}
use kubeception_operator.Platform.Exec.{Exec}
use kubeception_operator.Platform.Interface.{Platform}
use kubeception_operator.Platform.Fetch.{Ending, requeue_after, or_requeue, with_secret, IsMissing}
use kubeception_operator.Platform.Yields.{Yields}
use kubeception_operator.Platform.Healthy.{Succeeds}

module _ (P : Platform) (s : P.State) (key : Key)
    (f : Obj Kind.secret → Exec P.State P.Error Ending) where
  open P use {State, Error, get}

  pub with_secret_waits : IsMissing P key s → with_secret P key f s ≡ (ok (requeue_after 3), s)
  with_secret_waits (e, missing) = rw (missing, or_requeue)

  -- If the run of `f` waits, so does one that first needs a Secret.
  pub with_secret_passes :
      ((tls : Obj Kind.secret) → f tls s ≡ (ok (requeue_after 3), s))
      → with_secret P key f s ≡ (ok (requeue_after 3), s)
  with_secret_passes waits = passes (get Kind.secret key s)
    where
      passes : (r : Result Error (Obj Kind.secret)) → or_requeue P r f s ≡ (ok (requeue_after 3), s)
      passes (ok tls) = waits tls
      passes (err e) = refl

  pub Yields-found :
      {Q : Ending → State → Type 0} (tls : Obj Kind.secret)
      → get Kind.secret key s ≡ ok tls
      → Yields (f tls) s Q
      → Yields (with_secret P key f) s Q
  Yields-found tls found y = record {
    holds = λ a h. rw (found, or_requeue) (y.holds a (rw (found, or_requeue) at h));
  }

  -- A Get of a Secret that may or may not be there.
  pub Yields-with_secret :
      {Q : Ending → State → Type 0}
      → ((tls : Obj Kind.secret) → get Kind.secret key s ≡ ok tls → Yields (f tls) s Q)
      → (IsMissing P key s → Q (requeue_after 3) s)
      → Yields (with_secret P key f) s Q
  Yields-with_secret {Q} y n = record { holds = split (get Kind.secret key s) refl }
    where
      split :
          (r : Result Error (Obj Kind.secret))
          → get Kind.secret key s ≡ r
          → (a : Ending) → (or_requeue P r f s).0 ≡ ok a
          → Q a (or_requeue P r f s).1
      split (ok tls) found a h = (y tls found).holds a h
      split (err e) missing a h =
          let same : requeue_after 3 ≡ a = cc h in rw (← same) (n (e, missing))

module _ (P : Platform) (key : Key) (f : Obj Kind.secret → Exec P.State P.Error Ending) where
  open P use {State, Error, get}

  pub Succeeds-with_secret :
      ((tls : Obj Kind.secret) → Succeeds (f tls)) → Succeeds (with_secret P key f)
  Succeeds-with_secret t = record { result = λ s. split s (get Kind.secret key s) }
    where
      split :
          (s : State) (r : Result Error (Obj Kind.secret))
          → (a : Ending) × ((or_requeue P r f s).0 ≡ ok a)
      split s (ok tls) = (t tls).result s
      split s (err e) = (requeue_after 3, refl)
