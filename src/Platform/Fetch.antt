-- ===== src/Platform/Fetch.antt =====
-- How a reconciler ends, and the two ways in which it goes on from a Get.
use kubeception_operator.Base.{◌≡◌, ℕ, Result, ok, err, error, if◌then◌else◌}
use kubeception_operator.Types.Meta.{Key}
use kubeception_operator.Types.Kinds.{Kind, Obj}
use kubeception_operator.Platform.Exec.{Exec, pure, raise}
use kubeception_operator.Platform.Interface.{Platform}

-- `ctrl.Result{}` and `ctrl.Result{RequeueAfter: n * time.Second}`, where there is no error.
pub data Ending : Type 0 where
  done : Ending
  requeue_after : ℕ → Ending

module _ (P : Platform) {A : Type 0} where
  open P use {State, Error, is_not_found}

  -- An object that is gone ends the run; any other error is returned.
  abbrev pub or_done : Result Error A → (A → Exec State Error Ending) → Exec State Error Ending
  or_done (ok a) f = f a
  or_done (err e) f = if is_not_found e then pure done else raise (error e)

  -- Any error of the Get ends the run for three seconds.
  abbrev pub or_requeue : Result Error A → (A → Exec State Error Ending) → Exec State Error Ending
  or_requeue (ok a) f = f a
  or_requeue (err e) f = pure (requeue_after 3)

module _ (P : Platform) where
  open P use {State, Error, get}

  abbrev pub with_object :
      (k : Kind) → Key → (Obj k → Exec State Error Ending) → Exec State Error Ending
  with_object k key f s = or_done P (get k key s) f s

  abbrev pub with_secret :
      Key → (Obj Kind.secret → Exec State Error Ending) → Exec State Error Ending
  with_secret key f s = or_requeue P (get Kind.secret key s) f s

  -- A Secret that cannot be read.
  abbrev pub IsMissing : Key → State → Type 0
  IsMissing key s = (e : Error) × (get Kind.secret key s ≡ err e)
