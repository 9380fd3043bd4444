-- ===== src/Platform/View.antt =====
-- The abstract view of a cluster: which objects it holds. Whatever else a state has is forgotten,
-- and a run is compared with a change of that table.
use kubeception_operator.Base.{
  ◌≡◌, refl, sym, ap, ◌∙◌, subst, fun_ext, inl, inr, Option, none, some, Result, ok, err, Fault,
  List, [], ◌∷◌,
}
use kubeception_operator.Types.Meta.{Key, ObjectMeta}
use kubeception_operator.Types.Core.{Bytes}
use kubeception_operator.Types.Kinds.{Kind, Obj}
use kubeception_operator.Types.Kinds.Same.{Kind_discrete, Key_discrete}
use kubeception_operator.Platform.Exec.{Exec, pure, continue, ◌>>=◌}
use kubeception_operator.Platform.Interface.{
  Kubeconfig, SchedulerConfiguration, Platform, IsLawful, IsHealthy, Differ,
}
use kubeception_operator.Platform.Owned.{
  apply_owned, controlled, IsBase, apply_owned-stored, apply_owned-others,
}
use kubeception_operator.Platform.Fetch.{
  Ending, done, requeue_after, or_done, or_requeue, with_object, with_secret,
}
use kubeception_operator.Platform.Healthy.{Succeeds-apply_owned}
use kubeception_operator.Platform.Memory.{Table, update, update_self, update_others}

-- An object that a controller keeps: what it creates, and what it changes of a stored one.
pub record Write : Type 0 where
  pub kind : Kind
  pub initial : Obj kind
  pub change : Obj kind → Obj kind

abbrev pub or_initial : {A : Type 0} → A → Option A → A
or_initial o none = o
or_initial o (some stored) = stored

-- The object after the write.
abbrev pub written : (w : Write) → Table → Obj w.kind
written w t = w.change (or_initial w.initial (t w.kind w.initial.meta.key))

unfoldable pub write : Write → Table → Table
write w t = update w.kind w.initial.meta.key (written w t) t

unfoldable pub execute : List Write → Table → Table
execute [] t = t
execute (w ∷ ws) t = execute ws (write w t)

-- What a controller does to a table.
abbrev pub Plan : Type 0
Plan = Table → Ending × Table

-- A controller whose object is gone does nothing.
abbrev pub on_object : {A : Type 0} → Option A → (A → Plan) → Plan
on_object none f t = (done, t)
on_object (some o) f t = f o t

-- One that lacks a Secret waits.
abbrev pub on_secret : {A : Type 0} → Option A → (A → Plan) → Plan
on_secret none f t = (requeue_after 3, t)
on_secret (some o) f t = f o t

module _ (P : Platform) where
  open P use {State, Error, get}

  abbrev pub stored_in : {A : Type 0} → Result Error A → Option A
  stored_in (ok o) = some o
  stored_in (err e) = none

  abbrev pub view : State → Table
  view s k key = stored_in (get k key s)

  -- The run returns what the plan returns, and leaves the table that the plan leaves.
  pub record Implements (x : Result (Fault Error) Ending × State) (y : Ending × Table)
      : Type 0 where
    pub returns : x.0 ≡ ok y.0
    pub stores : view x.1 ≡ y.1

  pub Implements-pure : (a : Ending) (s : State) → Implements (pure a s) (a, view s)
  Implements-pure a s = record { returns = refl; stores = refl }

  -- A state in which one object was replaced.
  pub view-update :
      (k : Kind) (key : Key) (o : Obj k) (s s1 : State)
      → get k key s1 ≡ ok o
      → ((l : Kind) (key' : Key) → Differ k key l key' → get l key' s1 ≡ get l key' s)
      → view s1 ≡ update k key o (view s)
  view-update k key o s s1 at others = fun_ext λ l. fun_ext λ key'. elim (Kind_discrete k l) [
    | no n ↦
        ap stored_in (others l key' (λ p. n (p.0)))
        ∙ sym (update_others k key o (view s) l key' (λ p. n (p.0)))
    | yes p ↦ elim (Key_discrete key key') [
      | no n ↦
          ap stored_in (others l key' (λ q. n (q.1)))
          ∙ sym (update_others k key o (view s) l key' (λ q. n (q.1)))
      | yes q ↦
          subst (λ l. stored_in (get l key' s1) ≡ update k key o (view s) l key') p
            (subst (λ x. stored_in (get k x s1) ≡ update k key o (view s) k x) q
              (ap stored_in at ∙ sym (update_self k key o (view s))))
    ]
  ]

  base-written :
      (k : Kind) (o base : Obj k) (s : State)
      → IsBase P k o s base
      → base ≡ or_initial o (view s k o.meta.key)
  base-written k o base s (inl found) = rw found refl
  base-written k o base s (inr (same, (e, absent, _))) = rw absent same

-- Both encoders work.
pub record Encodes (P : Platform) : Type 0 where
  pub encode : Kubeconfig → Bytes
  pub encode_json : SchedulerConfiguration → Bytes
  pub kubeconfigs : (c : Kubeconfig) → P.write_kubeconfig c ≡ ok (encode c)
  pub configurations : (c : SchedulerConfiguration) → P.marshal c ≡ ok (encode_json c)

module _ (P : Platform) (L : IsLawful P) (H : IsHealthy P) where
  open P use {State, Error, get, is_not_found}

  module _ (owner : Kind) (meta : ObjectMeta) (k : Kind) (o : Obj k)
      (f : Obj k → Result (Fault Error) (Obj k)) (g : Obj k → Obj k)
      (makes : (b : Obj k) → f b ≡ ok (g b))
      (same_key : (b : Obj k) → (g b).meta.key ≡ b.meta.key) where
    -- The write that the call makes.
    abbrev pub asked : Write
    asked = record { kind = k; initial = controlled owner meta k o; change = g }

    -- The call returns the written object and leaves the written table.
    pub apply_owned-write :
        (s : State)
        → ((apply_owned P owner meta k o f s).0 ≡ ok (written asked (view P s)))
          × (view P (apply_owned P owner meta k o f s).1 ≡ write asked (view P s))
    unfolding write
    apply_owned-write s =
        let (o', wrote) =
          (Succeeds-apply_owned P L H owner meta k o f (λ b. (g b, makes b, same_key b))).result
            s in
        let (base, is_base, made_by, stored) = apply_owned-stored P L owner meta k o f s o' wrote in
        let at_base = base-written P k (controlled owner meta k o) base s is_base in
        let made_of : o' ≡ g base = cc (makes base, made_by) in
        let same : o' ≡ written asked (view P s) = made_of ∙ ap g at_base in
        (
          wrote ∙ ap ok same,
          view-update P k o.meta.key o' s _ stored (apply_owned-others P L owner meta k o f s)
              ∙ ap (λ x. update k o.meta.key x (view P s)) same,
        )

    -- A run that begins with the call implements a plan that begins with the write.
    pub Implements-write :
        (plan : Plan) (next : Obj k → Exec State Error Ending) (s : State)
        → ((s1 : State) → Implements P (next (written asked (view P s)) s1) (plan (view P s1)))
        → Implements P ((apply_owned P owner meta k o f >>= next) s) (plan (write asked (view P s)))
    Implements-write plan next s goes_on =
        let (returns, leaves) = apply_owned-write s in
        let s1 = (apply_owned P owner meta k o f s).1 in
        subst (λ r. Implements P (continue r next s1) (plan (write asked (view P s)))) (sym returns)
          (subst (λ t. Implements P (next (written asked (view P s)) s1) (plan t)) leaves
            (goes_on s1))

  pub Implements-with_object :
      {k : Kind} (plan : Obj k → Plan) (key : Key) (f : Obj k → Exec State Error Ending) (s : State)
      → ((o : Obj k) → get k key s ≡ ok o → Implements P (f o s) (plan o (view P s)))
      → Implements P (with_object P k key f s) (on_object (view P s k key) plan (view P s))
  Implements-with_object {k} plan key f s there = split (get k key s) refl
    where
      split :
          (r : Result Error (Obj k))
          → get k key s ≡ r
          → Implements P (or_done P r f s) (on_object (stored_in P r) plan (view P s))
      split (ok o) found = there o found
      split (err e) missing = rw (H.only_missing k key s e missing) (Implements-pure P done s)

  pub Implements-with_secret :
      (plan : Obj Kind.secret → Plan) (key : Key) (f : Obj Kind.secret → Exec State Error Ending)
      (s : State)
      → ((o : Obj Kind.secret)
          → get Kind.secret key s ≡ ok o
          → Implements P (f o s) (plan o (view P s)))
      → Implements P (with_secret P key f s) (on_secret (view P s Kind.secret key) plan (view P s))
  Implements-with_secret plan key f s there = split (get Kind.secret key s) refl
    where
      split :
          (r : Result Error (Obj Kind.secret))
          → get Kind.secret key s ≡ r
          → Implements P (or_requeue P r f s) (on_secret (stored_in P r) plan (view P s))
      split (ok o) found = there o found
      split (err e) missing = Implements-pure P (requeue_after 3) s
