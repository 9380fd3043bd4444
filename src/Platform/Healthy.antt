-- ===== src/Platform/Healthy.antt =====
-- Where no call of the platform fails, writes succeed: one rule for each way to build a run.
use kubeception_operator.Base.{◌≡◌, refl, ◌∙◌, Result, ok, err, Fault, lift}
use kubeception_operator.Types.Meta.{ObjectMeta}
use kubeception_operator.Types.Kinds.{Kind, Obj}
use kubeception_operator.Platform.Exec.{Exec, pure, continue, ◌>>=◌}
use kubeception_operator.Platform.Interface.{Platform, IsLawful, IsHealthy, desired_from}
use kubeception_operator.Platform.Owned.{apply_owned}

pub record Succeeds {S E A : Type 0} (m : Exec S E A) : Type 0 where
  pub result : (s : S) → (a : A) × ((m s).0 ≡ ok a)

module _ {S E A : Type 0} where
  pub Succeeds-pure : (a : A) → Succeeds {S = S} {E = E} (pure a)
  Succeeds-pure a = record { result = λ s. (a, refl) }

module _ {S E A B : Type 0} where
  Succeeds-continue :
      (r : Result (Fault E) A) (f : A → Exec S E B) (s : S)
      → (a : A) × (r ≡ ok a)
      → ((a : A) → Succeeds (f a))
      → (b : B) × ((continue r f s).0 ≡ ok b)
  Succeeds-continue (ok a) f s h t = (t a).result s
  Succeeds-continue (err e) f s h t = cc (h.1)

  pub Succeeds-bind :
      (m : Exec S E A) (f : A → Exec S E B)
      → Succeeds m
      → ((a : A) → Succeeds (f a))
      → Succeeds (m >>= f)
  Succeeds-bind m f tm tf = record {
    result = λ s. Succeeds-continue (m s).0 f (m s).1 (tm.result s) tf;
  }

module _ (P : Platform) (L : IsLawful P) (H : IsHealthy P) where
  open P use {State, Error, get, is_not_found, create_or_patch, set_controller_reference}

  module _ (owner : Kind) (meta : ObjectMeta) (k : Kind) (o : Obj k)
      (f : Obj k → Result (Fault Error) (Obj k))
      (total : (base : Obj k) → (m : Obj k) × (f base ≡ ok m) × (m.meta.key ≡ base.meta.key)) where
    desired_total :
        (c : Obj k) (s : State) (r : Result Error (Obj k))
        → get k c.meta.key s ≡ r
        → (m : Obj k) × (desired_from P k c f r ≡ ok m) × (m.meta.key ≡ c.meta.key)
    desired_total c s (ok stored) found =
        let (m, made_by, same) = total stored in
        (m, made_by, same ∙ L.own_key k c.meta.key s stored found)
    desired_total c s (err e) found =
        let (m, made_by, same) = total c in
        (m, rw (H.only_missing k c.meta.key s e found) made_by, same)

    write_total :
        (s : State) (r : Result Error (Obj k))
        → (c : Obj k) × (r ≡ ok c)
        → (o' : Obj k) × ((continue (lift r) (λ c. create_or_patch k c f) s).0 ≡ ok o')
    write_total s (ok c) h =
        let (m, wanted, same) = desired_total c s (get k c.meta.key s) refl in
        (m, H.writes k c f s m wanted same)
    write_total s (err e) h = cc (h.1)

    -- A write whose MutateFn always succeeds and keeps the name succeeds.
    pub Succeeds-apply_owned : Succeeds (apply_owned P owner meta k o f)
    unfolding apply_owned
    Succeeds-apply_owned = record {
      result = λ s.
          write_total s (set_controller_reference owner meta k o) (H.references owner meta k o);
    }
