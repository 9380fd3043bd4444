-- ===== src/Platform/Settled.antt =====
-- Writes that a table already shows: doing them again changes nothing.
use kubeception_operator.Base.{
  ◌≡◌, refl, sym, ap, ◌∙◌, subst, fun_ext, Option, none, some, List, [], ◌∷◌,
}
use kubeception_operator.Types.Meta.{Key}
use kubeception_operator.Types.Kinds.{Kind, Obj}
use kubeception_operator.Types.Kinds.Same.{Kind_discrete, Key_discrete}
use kubeception_operator.Platform.Interface.{Differ}
use kubeception_operator.Platform.Memory.{Table, update, update_self, update_others}
use kubeception_operator.Platform.View.{
  Plan, on_object, on_secret, Write, written, or_initial, write, execute,
}
use kubeception_operator.Platform.Fetch.{Ending}

abbrev pub place_key : Write → Key
place_key w = w.initial.meta.key

-- The write is of another object than the given one.
abbrev pub Spares : (k : Kind) → Key → Write → Type 0
Spares k key w = Differ w.kind (place_key w) k key

abbrev pub AllSpare : (k : Kind) → Key → List Write → Type 0
AllSpare k key [] = Unit
AllSpare k key (w ∷ ws) = Spares k key w × AllSpare k key ws

-- No two of the writes are of the same object.
abbrev pub Distinct : List Write → Type 0
Distinct [] = Unit
Distinct (w ∷ ws) = AllSpare w.kind (place_key w) ws × Distinct ws

abbrev pub Idempotent : Write → Type 0
Idempotent w = (o : Obj w.kind) → w.change (w.change o) ≡ w.change o

abbrev pub AllIdempotent : List Write → Type 0
AllIdempotent [] = Unit
AllIdempotent (w ∷ ws) = Idempotent w × AllIdempotent ws

-- The table shows the write.
abbrev pub Shows : Table → Write → Type 0
Shows t w = (o : Obj w.kind) × (t w.kind (place_key w) ≡ some o) × (w.change o ≡ o)

abbrev pub AllShown : Table → List Write → Type 0
AllShown t [] = Unit
AllShown t (w ∷ ws) = Shows t w × AllShown t ws

-- The writes leave the objects that they spare.
pub execute-others :
    (ws : List Write) (t : Table) (k : Kind) (key : Key)
    → AllSpare k key ws
    → execute ws t k key ≡ t k key
unfolding execute write
execute-others [] t k key spare = refl
execute-others (w ∷ ws) t k key (first, rest) =
    execute-others ws (write w t) k key rest
    ∙ update_others w.kind (place_key w) (written w t) t k key first

write-Shows : (w : Write) (t : Table) → Idempotent w → Shows (write w t) w
unfolding write
write-Shows w t twice = (
  written w t,
  update_self w.kind (place_key w) (written w t) t,
  twice (or_initial w.initial (t w.kind (place_key w))),
)

pub execute-AllShown :
    (ws : List Write) (t : Table) → Distinct ws → AllIdempotent ws → AllShown (execute ws t) ws
unfolding execute
execute-AllShown [] t apart twice = tt
execute-AllShown (w ∷ ws) t (spare, apart) (twice, rest) =
    let (o, at, same) = write-Shows w t twice in
    (
      (o, execute-others ws (write w t) w.kind (place_key w) spare ∙ at, same),
      execute-AllShown ws (write w t) apart rest,
    )

-- An object is replaced by itself.
update_same :
    (k : Kind) (key : Key) (o : Obj k) (t : Table) → t k key ≡ some o → update k key o t ≡ t
update_same k key o t at = fun_ext λ l. fun_ext λ key'. elim (Kind_discrete k l) [
  | no n ↦ update_others k key o t l key' (λ p. n (p.0))
  | yes p ↦ elim (Key_discrete key key') [
    | no n ↦ update_others k key o t l key' (λ q. n (q.1))
    | yes q ↦
        subst (λ l. update k key o t l key' ≡ t l key') p
          (subst (λ x. update k key o t k x ≡ t k x) q (update_self k key o t ∙ sym at))
  ]
]

shown_again : (w : Write) (t : Table) → Shows t w → write w t ≡ t
unfolding write
shown_again w t (o, at, same) =
    ap (λ x. update w.kind (place_key w) (w.change (or_initial w.initial x)) t) at
    ∙ ap (λ x. update w.kind (place_key w) x t) same
    ∙ update_same w.kind (place_key w) o t at

pub execute_shown : (ws : List Write) (t : Table) → AllShown t ws → execute ws t ≡ t
unfolding execute
execute_shown [] t shown = refl
execute_shown (w ∷ ws) t (first, rest) =
    ap (execute ws) (shown_again w t first) ∙ execute_shown ws t rest

-- Writes of different objects that keep what they have made can be done twice.
pub execute_twice :
    (ws : List Write) (t : Table)
    → Distinct ws
    → AllIdempotent ws
    → execute ws (execute ws t) ≡ execute ws t
execute_twice ws t apart twice = execute_shown ws (execute ws t) (execute-AllShown ws t apart twice)

-- A plan that does nothing more the second time.
abbrev pub Repeats : Plan → Table → Type 0
Repeats plan t = plan (plan t).1 ≡ plan t

module _ {k : Kind} (key : Key) (f : Obj k → Plan) (t : Table) where
  -- A plan for an object is repeated if it keeps the object and is repeated on it.
  pub on_object-Repeats :
      ((o : Obj k) → t k key ≡ some o → ((f o t).1 k key ≡ t k key) × Repeats (f o) t)
      → Repeats (λ t. on_object (t k key) f t) t
  on_object-Repeats there = split (t k key) refl
    where
      split :
          (r : Option (Obj k))
          → t k key ≡ r
          → on_object ((on_object r f t).1 k key) f (on_object r f t).1 ≡ on_object r f t
      split none absent = ap (λ r. on_object r f t) absent
      split (some o) found =
          let (kept, again) = there o found in
          ap (λ r. on_object r f (f o t).1) (kept ∙ found) ∙ again

module _ (key : Key) (f : Obj Kind.secret → Plan) (t : Table) where
  pub on_secret-Repeats :
      ((o : Obj Kind.secret)
        → t Kind.secret key ≡ some o
        → ((f o t).1 Kind.secret key ≡ t Kind.secret key) × Repeats (f o) t)
      → Repeats (λ t. on_secret (t Kind.secret key) f t) t
  on_secret-Repeats there = split (t Kind.secret key) refl
    where
      split :
          (r : Option (Obj Kind.secret))
          → t Kind.secret key ≡ r
          → on_secret ((on_secret r f t).1 Kind.secret key) f (on_secret r f t).1 ≡ on_secret r f t
      split none absent = ap (λ r. on_secret r f t) absent
      split (some o) found =
          let (kept, again) = there o found in
          ap (λ r. on_secret r f (f o t).1) (kept ∙ found) ∙ again

  pub on_secret-others :
      (l : Kind) (key' : Key)
      → ((o : Obj Kind.secret) → (f o t).1 l key' ≡ t l key')
      → (on_secret (t Kind.secret key) f t).1 l key' ≡ t l key'
  on_secret-others l key' kept = split (t Kind.secret key)
    where
      split : (r : Option (Obj Kind.secret)) → (on_secret r f t).1 l key' ≡ t l key'
      split none = refl
      split (some o) = kept o

-- A list of writes with a fixed ending.
pub execute-Repeats :
    (ending : Ending) (ws : List Write) (t : Table)
    → Distinct ws
    → AllIdempotent ws
    → Repeats (λ t. (ending, execute ws t)) t
execute-Repeats ending ws t apart twice = ap (λ t. (ending, t)) (execute_twice ws t apart twice)

-- Writes that a plan goes on to keep are repeated with it.
abbrev pub AllKept : List Write → Table → Table → Type 0
AllKept [] t t' = Unit
AllKept (w ∷ ws) t t' = (t' w.kind (place_key w) ≡ t w.kind (place_key w)) × AllKept ws t t'

AllShown-kept : (ws : List Write) (t t' : Table) → AllKept ws t t' → AllShown t ws → AllShown t' ws
AllShown-kept [] t t' kept shown = tt
AllShown-kept (w ∷ ws) t t' (same, kept) ((o, at, made), shown) =
    ((o, same ∙ at, made), AllShown-kept ws t t' kept shown)

pub first-Repeats :
    (ws : List Write) (plan : Plan) (t : Table)
    → Distinct ws
    → AllIdempotent ws
    → AllKept ws (execute ws t) (plan (execute ws t)).1
    → Repeats plan (execute ws t)
    → Repeats (λ t. plan (execute ws t)) t
first-Repeats ws plan t apart twice kept again =
    let t1 = execute ws t in
    ap plan (
      execute_shown ws (plan t1).1
        (AllShown-kept ws t1 (plan t1).1 kept (execute-AllShown ws t apart twice)))
    ∙ again

-- Secrets that are only waited for.
abbrev pub waiting : List Key → Plan → Plan
waiting [] plan t = plan t
waiting (key ∷ keys) plan t = on_secret (t Kind.secret key) (λ _. waiting keys plan) t

abbrev pub KeepsSecrets : List Key → Plan → Table → Type 0
KeepsSecrets [] plan t = Unit
KeepsSecrets (key ∷ keys) plan t =
    ((plan t).1 Kind.secret key ≡ t Kind.secret key) × KeepsSecrets keys plan t

pub waiting-others :
    (keys : List Key) (plan : Plan) (t : Table) (l : Kind) (key' : Key)
    → (plan t).1 l key' ≡ t l key'
    → (waiting keys plan t).1 l key' ≡ t l key'
waiting-others [] plan t l key' kept = kept
waiting-others (key ∷ keys) plan t l key' kept =
    on_secret-others key (λ _. waiting keys plan) t l key'
      λ _. waiting-others keys plan t l key' kept

pub waiting-Repeats :
    (keys : List Key) (plan : Plan) (t : Table)
    → KeepsSecrets keys plan t
    → Repeats plan t
    → Repeats (waiting keys plan) t
waiting-Repeats [] plan t kept again = again
waiting-Repeats (key ∷ keys) plan t (same, kept) again =
    on_secret-Repeats key (λ _. waiting keys plan) t
      λ _ _.
        (waiting-others keys plan t Kind.secret key same, waiting-Repeats keys plan t kept again)
