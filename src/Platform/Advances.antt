-- ===== src/Platform/Advances.antt =====
-- Tables that only gain objects, and the Secrets that a plan waits for.
use kubeception_operator.Base.{◌≡◌, refl, ap, ◌∙◌, subst, Option, none, some, List, [], ◌∷◌}
use kubeception_operator.Types.Meta.{Key}
use kubeception_operator.Types.Kinds.{Kind, Obj}
use kubeception_operator.Types.Kinds.Same.{Kind_discrete, Key_discrete}
use kubeception_operator.Platform.Memory.{Table, update_self, update_others}
use kubeception_operator.Platform.View.{Plan, on_object, on_secret, Write, written, write, execute}
use kubeception_operator.Platform.Settled.{place_key, waiting}

abbrev pub Holds : Table → (k : Kind) → Key → Type 0
Holds t k key = (o : Obj k) × (t k key ≡ some o)

-- The kinds of objects that the three components' controllers write.
abbrev pub IsWorkload : Kind → Type 0
IsWorkload Kind.secret = Unit
IsWorkload Kind.config_map = Unit
IsWorkload Kind.deployment = Unit
IsWorkload _ = ⊥

-- No object is lost, and none of another kind has changed.
pub record Advances (t t' : Table) : Type 0 where
  pub holds : (k : Kind) (key : Key) → Holds t k key → Holds t' k key
  pub same : (k : Kind) (key : Key) → ¬ IsWorkload k → t' k key ≡ t k key

pub Advances-refl : (t : Table) → Advances t t
Advances-refl t = record { holds = λ k key h. h; same = λ k key n. refl }

pub Advances-trans : {t u v : Table} → Advances t u → Advances u v → Advances t v
Advances-trans a b = record {
  holds = λ k key h. b.holds k key (a.holds k key h);
  same = λ k key n. b.same k key n ∙ a.same k key n;
}

pub write-Holds : (w : Write) (t : Table) → Holds (write w t) w.kind (place_key w)
unfolding write
write-Holds w t = (written w t, update_self w.kind (place_key w) (written w t) t)

write_keeps-Holds :
    (w : Write) (t : Table) (k : Kind) (key : Key) → Holds t k key → Holds (write w t) k key
unfolding write
write_keeps-Holds w t k key (o, at) = elim (Kind_discrete w.kind k) [
  | no n ↦ (o, update_others w.kind (place_key w) (written w t) t k key (λ p. n (p.0)) ∙ at)
  | yes p ↦ elim (Key_discrete (place_key w) key) [
    | no n ↦ (o, update_others w.kind (place_key w) (written w t) t k key (λ q. n (q.1)) ∙ at)
    | yes q ↦
        subst (λ l. Holds (write w t) l key) p
          (subst (λ x. Holds (write w t) w.kind x) q (write-Holds w t))
  ]
]

pub write-Advances : (w : Write) (t : Table) → IsWorkload w.kind → Advances t (write w t)
unfolding write
write-Advances w t workload = record {
  holds = write_keeps-Holds w t;
  same = λ k key n. other k key n;
}
  where
    other : (k : Kind) (key : Key) → ¬ IsWorkload k → write w t k key ≡ t k key
    other k key n =
        update_others w.kind (place_key w) (written w t) t k key
          (λ h. n (subst IsWorkload (h.0) workload))

abbrev pub AllWorkloads : List Write → Type 0
AllWorkloads [] = Unit
AllWorkloads (w ∷ ws) = IsWorkload w.kind × AllWorkloads ws

pub execute-Advances : (ws : List Write) (t : Table) → AllWorkloads ws → Advances t (execute ws t)
unfolding execute
execute-Advances [] t all = Advances-refl t
execute-Advances (w ∷ ws) t (first, rest) =
    Advances-trans (write-Advances w t first) (execute-Advances ws (write w t) rest)

pub on_object-Advances :
    {A : Type 0} (r : Option A) (f : A → Plan) (t : Table)
    → ((o : A) → Advances t (f o t).1)
    → Advances t (on_object r f t).1
on_object-Advances none f t there = Advances-refl t
on_object-Advances (some o) f t there = there o

pub on_secret-Advances :
    {A : Type 0} (r : Option A) (f : A → Plan) (t : Table)
    → ((o : A) → Advances t (f o t).1)
    → Advances t (on_secret r f t).1
on_secret-Advances none f t there = Advances-refl t
on_secret-Advances (some o) f t there = there o

pub waiting-Advances :
    (keys : List Key) (plan : Plan) (t : Table)
    → Advances t (plan t).1
    → Advances t (waiting keys plan t).1
waiting-Advances [] plan t a = a
waiting-Advances (key ∷ keys) plan t a =
    on_secret-Advances (t Kind.secret key) (λ _. waiting keys plan) t
      λ _. waiting-Advances keys plan t a

-- Secrets that are all there.
abbrev pub AllHeld : Table → List Key → Type 0
AllHeld t [] = Unit
AllHeld t (key ∷ keys) = Holds t Kind.secret key × AllHeld t keys

pub AllHeld-Advances :
    (keys : List Key) (t t' : Table) → Advances t t' → AllHeld t keys → AllHeld t' keys
AllHeld-Advances [] t t' a all = tt
AllHeld-Advances (key ∷ keys) t t' a (first, rest) =
    (a.holds Kind.secret key first, AllHeld-Advances keys t t' a rest)

-- Nothing is waited for any more.
pub waiting-AllHeld :
    (keys : List Key) (plan : Plan) (t : Table) → AllHeld t keys → waiting keys plan t ≡ plan t
waiting-AllHeld [] plan t all = refl
waiting-AllHeld (key ∷ keys) plan t ((o, at), rest) =
    ap (λ r. on_secret r (λ _. waiting keys plan) t) at ∙ waiting-AllHeld keys plan t rest
