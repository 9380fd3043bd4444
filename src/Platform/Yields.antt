-- ===== src/Platform/Yields.antt =====
-- What holds after a run that returns no error, with one rule for each way to build the run. The
-- rule for a write hands on the facts about the new state, and forgets how the state came about.
use mathlib.Core.Path.{subst₂}
use kubeception_operator.Base.{◌≡◌, refl, sym, subst, ◌∙◌, inl, inr, Result, ok, err, Fault}
use kubeception_operator.Types.Meta.{Key, ObjectMeta}
use kubeception_operator.Types.Kinds.{Kind, Obj}
use kubeception_operator.Types.Kinds.Same.{Kind_discrete, Key_discrete}
use kubeception_operator.Platform.Exec.{Exec, pure, continue, ◌>>=◌}
use kubeception_operator.Platform.Interface.{Platform, IsLawful, Differ}
use kubeception_operator.Platform.Owned.{
  apply_owned, controlled, IsBase, apply_owned-stored, apply_owned-others,
}

-- If `m` succeeds from `s`, then its result and its state meet `Q`.
pub record Yields {S E A : Type 0} (m : Exec S E A) (s : S) (Q : A → S → Type 0) : Type 0 where
  pub holds : (a : A) → (m s).0 ≡ ok a → Q a (m s).1

module _ {S E A : Type 0} where
  pub Yields-pure : {Q : A → S → Type 0} (a : A) (s : S) → Q a s → Yields {E = E} (pure a) s Q
  Yields-pure {Q} a s q = record {
    holds = λ b h. let same : a ≡ b = cc h in subst (λ x. Q x s) same q;
  }

module _ {S E A B : Type 0} where
  Yields-continue :
      {Q : B → S → Type 0} (r : Result (Fault E) A) (f : A → Exec S E B) (s : S)
      → ((a : A) → r ≡ ok a → Yields (f a) s Q)
      → (b : B) → (continue r f s).0 ≡ ok b
      → Q b (continue r f s).1
  Yields-continue (ok a) f s y b h = (y a refl).holds b h
  Yields-continue (err e) f s y b h = cc h

  pub Yields-bind :
      {Q : B → S → Type 0} (m : Exec S E A) (f : A → Exec S E B) (s : S)
      → ((a : A) → (m s).0 ≡ ok a → Yields (f a) (m s).1 Q)
      → Yields (m >>= f) s Q
  Yields-bind m f s y = record { holds = Yields-continue (m s).0 f (m s).1 y }

module _ (P : Platform) where
  open P use {State, get}

  -- The two states hold the same objects.
  abbrev pub SameObjects : State → State → Type 0
  SameObjects s s' = (l : Kind) (key : Key) → get l key s' ≡ get l key s

  same_everywhere :
      (k : Kind) (key : Key) (s s' : State)
      → get k key s' ≡ get k key s
      → ((l : Kind) (key' : Key) → Differ k key l key' → get l key' s' ≡ get l key' s)
      → SameObjects s s'
  same_everywhere k key s s' here there l key' = elim (Kind_discrete k l) [
    | no n ↦ there l key' (λ p. n (p.0))
    | yes p ↦ elim (Key_discrete key key') [
      | no n ↦ there l key' (λ q. n (q.1))
      | yes q ↦ subst₂ (λ x y. get x y s' ≡ get x y s) p q here
    ]
  ]

module _ (P : Platform) (L : IsLawful P) {B : Type 0} where
  open P use {State, Error, get}

  -- After a write the run goes on in a state that holds the new object, and every other one as it
  -- was.
  pub Yields-write :
      {Q : B → State → Type 0} (owner : Kind) (meta : ObjectMeta) (k : Kind) (o : Obj k)
      (f : Obj k → Result (Fault Error) (Obj k)) (next : Obj k → Exec State Error B) (s : State)
      → ((o' base : Obj k) (s1 : State)
          → IsBase P k (controlled owner meta k o) s base
          → f base ≡ ok o'
          → get k o.meta.key s1 ≡ ok o'
          → ((l : Kind) (key : Key) → Differ k o.meta.key l key → get l key s1 ≡ get l key s)
          → Yields (next o') s1 Q)
      → Yields (apply_owned P owner meta k o f >>= next) s Q
  Yields-write owner meta k o f next s y =
      Yields-bind (apply_owned P owner meta k o f) next s λ o' wrote.
        let (base, is_base, made_by, stored) = apply_owned-stored P L owner meta k o f s o' wrote in
        y o' base (apply_owned P owner meta k o f s).1 is_base made_by stored
          (apply_owned-others P L owner meta k o f s)

  -- A write that asks for what is stored leaves every object as it was.
  pub Yields-same :
      {Q : B → State → Type 0} (owner : Kind) (meta : ObjectMeta) (k : Kind) (o : Obj k)
      (f : Obj k → Result (Fault Error) (Obj k)) (next : Obj k → Exec State Error B) (s : State)
      (stored : Obj k)
      → get k o.meta.key s ≡ ok stored
      → f stored ≡ ok stored
      → ((s1 : State) → SameObjects P s s1 → Yields (next stored) s1 Q)
      → Yields (apply_owned P owner meta k o f >>= next) s Q
  Yields-same {Q} owner meta k o f next s stored found fixed y =
      Yields-write owner meta k o f next s λ o' base s1 is_base made_by at others.
        let e : stored ≡ o' = same_base base o' is_base made_by in
        subst (λ x. Yields (next x) s1 Q) e
          (y s1 (same_everywhere P k o.meta.key s s1 (at ∙ rw (← e) (sym found)) others))
    where
      same_base :
          (base o' : Obj k)
          → IsBase P k (controlled owner meta k o) s base
          → f base ≡ ok o'
          → stored ≡ o'
      same_base base o' (inl again) made_by =
          let e : stored ≡ base = cc (found, again) in
          let made : f stored ≡ ok o' = rw e made_by in cc (fixed, made)
      same_base base o' (inr (_, (e, absent, _))) made_by = cc (found, absent)
