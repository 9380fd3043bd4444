-- ===== src/Platform/Exec.antt =====
-- Code that reads and writes a state and can fail. What was written before a failure stays written,
-- so the state comes back beside the error too.
use kubeception_operator.Base.{◌≡◌, refl, Result, ok, err, Fault, lift, ap}

abbrev pub Exec : Type 0 → Type 0 → Type 0 → Type 0
Exec S E A = S → Result (Fault E) A × S

module _ {S E A : Type 0} where
  abbrev pub pure : A → Exec S E A
  pure a s = (ok a, s)

  abbrev pub raise : Fault E → Exec S E A
  raise e s = (err e, s)

  -- A call that neither reads nor writes the state.
  abbrev pub call : Result E A → Exec S E A
  call r s = (lift r, s)

module _ {S E A B : Type 0} where
  abbrev pub continue : Result (Fault E) A → (A → Exec S E B) → Exec S E B
  continue (ok a) f s = f a s
  continue (err e) f s = (err e, s)

  infixl 10 ◌>>=◌ ◌>>◌
  abbrev pub ◌>>=◌ : Exec S E A → (A → Exec S E B) → Exec S E B
  ◌>>=◌ m f s = continue (m s).0 f (m s).1

  abbrev pub ◌>>◌ : Exec S E A → Exec S E B → Exec S E B
  m >> n = m >>= λ _. n

  -- A block that succeeds has succeeded in each step.
  pub >>=-eq-ok :
      (m : Exec S E A) (f : A → Exec S E B) (s : S) {b : B}
      → ((m >>= f) s).0 ≡ ok b
      → (a : A) × ((m s).0 ≡ ok a) × ((m >>= f) s ≡ f a (m s).1)
  >>=-eq-ok m f s h = split (m s).0 refl
    where
      split :
          (r : Result (Fault E) A)
          → (m s).0 ≡ r
          → (a : A) × ((m s).0 ≡ ok a) × ((m >>= f) s ≡ f a (m s).1)
      split (ok a) e = (a, e, ap (λ r. continue r f (m s).1) e)
      split (err e') e = cc (e, h)
