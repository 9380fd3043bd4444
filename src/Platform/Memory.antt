-- ===== src/Platform/Memory.antt =====
-- A platform that keeps its objects in a table and may forbid writes, or updates of the status, of
-- some kinds: it shows that the laws can be met, and the examples run on it.
use mathlib.Core.Option.{or_else}
use kubeception_operator.Base.{
  ◌≡◌, refl, sym, ◌∙◌, ap, inl, inr, Bool, true, false, Result, ok, err, Fault, error, Option, none,
  some, [], ◌∷◌, ◌++◌, arith, Bool-cases, if◌then◌else◌,
}
use kubeception_operator.Types.Meta.{Key, key_eq}
use kubeception_operator.Types.Kinds.{Kind, Obj}
use kubeception_operator.Types.Kinds.Same.{cast, cast_self, cast_ne}
use kubeception_operator.Platform.Interface.{Platform, IsLawful, IsHealthy, Differ, desired_from}
use kubeception_operator.Platform.Owned.{controlled}

abbrev pub Table : Type 0
Table = (k : Kind) → Key → Option (Obj k)

pub data Failure : Type 0 where
  not_found forbidden invalid : Failure

abbrev pub empty : Table
empty k key = none

abbrev found : {A : Type 0} → Option A → Result Failure A
found (some o) = ok o
found none = err not_found

-- A table entry that names another object is none.
abbrev checked : (k : Kind) → Key → Option (Obj k) → Option (Obj k)
checked k key none = none
checked k key (some o) = if key_eq o.meta.key key then some o else none

abbrev missing : Failure → Bool
missing not_found = true
missing _ = false

unfoldable pub update : (k : Kind) → Key → Obj k → Table → Table
update k key o s l key' = if key_eq key key' then or_else (cast k l o) (s l key') else s l key'

key_eq_refl : (a : Key) → key_eq a a ≡ true
key_eq_refl a = ground arith

key_eq_sound : (a b : Key) → key_eq a b ≡ true → a ≡ b
key_eq_sound a b h = ground arith

checked_self :
    (k : Kind) (key : Key) (o : Obj k) → o.meta.key ≡ key → found (checked k key (some o)) ≡ ok o
checked_self k key o e = rw (e, key_eq_refl key)

pub update_self : (k : Kind) (key : Key) (o : Obj k) (s : Table) → update k key o s k key ≡ some o
unfolding update or_else
update_self k key o s = rw (key_eq_refl key, cast_self k o)

pub update_others :
    (k : Kind) (key : Key) (o : Obj k) (s : Table) (l : Kind) (key' : Key)
    → Differ k key l key'
    → update k key o s l key' ≡ s l key'
unfolding update or_else
update_others k key o s l key' d = elim (Bool-cases (key_eq key key')) [
  | inl same ↦ rw (same, cast_ne k l o (λ e. d (e, key_eq_sound key key' same)))
  | inr differ ↦ rw differ
]

-- What the server answers to a write.
module _ (denied : Kind → Bool) (k : Kind) (key : Key) (s : Table) where
  unfoldable pub settle : Result (Fault Failure) (Obj k) → Result (Fault Failure) (Obj k) × Table
  settle (err e) = (err e, s)
  settle (ok m) =
      if denied k
      then (err (error forbidden), s)
      else if key_eq m.meta.key key
      then (ok m, update k key m s)
      else (err (error invalid), s)

abbrev attempt :
    (k : Kind) (o : Obj k)
    → (Obj k → Result (Fault Failure) (Obj k))
    → Option (Obj k)
    → Result (Fault Failure) (Obj k)
attempt k o f (some stored) = f stored
attempt k o f none = f o

unfoldable pub store_status :
    Bool → (k : Kind) → Obj k → Table → Option (Obj k) → Result Failure (Unit {0}) × Table
store_status denied k o s none = (err not_found, s)
store_status true k o s (some stored) = (err forbidden, s)
store_status false k o s (some stored) =
    (ok tt, update k o.meta.key (record stored { status = o.status }) s)

module _ (denied status_denied : Kind → Bool) where
  abbrev pub memory : Platform
  memory = record {
    State = Table;
    Error = Failure;
    is_not_found = missing;
    get = λ k key s. found (checked k key (s k key));
    set_controller_reference = λ owner meta k o. ok (controlled owner meta k o);
    create_or_patch = λ k o f s.
        settle denied k o.meta.key s (attempt k o f (checked k o.meta.key (s k o.meta.key)));
    update_status =
        λ k o s. store_status (status_denied k) k o s (checked k o.meta.key (s k o.meta.key));
    write_kubeconfig = λ c. ok (c.client_certificate_data ++ c.client_key_data);
    marshal = λ c. ok (0 ∷ []);
  }

  attempt-desired :
      (k : Kind) (o : Obj k) (f : Obj k → Result (Fault Failure) (Obj k)) (r : Option (Obj k))
      → attempt k o f r ≡ desired_from memory k o f (found r)
  attempt-desired k o f none = refl
  attempt-desired k o f (some a) = refl

  module _ (k : Kind) (key : Key) (s : Table) where
    settle-written :
        (d : Result (Fault Failure) (Obj k)) (o' : Obj k)
        → (settle denied k key s d).0 ≡ ok o'
        → (d ≡ ok o') × (found (checked k key ((settle denied k key s d).1 k key)) ≡ ok o')
    unfolding settle
    settle-written (err e) o' h = cc
    settle-written (ok m) o' h = ground (arith, update_self k key m s)

    settle_err : (e : Fault Failure) → settle denied k key s (err e) ≡ (err e, s)
    unfolding settle
    settle_err e = refl

    settle-failed :
        (d : Result (Fault Failure) (Obj k)) (e : Fault Failure)
        → (settle denied k key s d).0 ≡ err e
        → (settle denied k key s d).1 ≡ s
    unfolding settle
    settle-failed (err c) e h = refl
    settle-failed (ok m) e h = ground arith

    settle-no_panic :
        (d : Result (Fault Failure) (Obj k))
        → (settle denied k key s d).0 ≡ err Fault.panic
        → d ≡ err Fault.panic
    unfolding settle
    settle-no_panic (err c) h = h
    settle-no_panic (ok m) h = ground arith

    settle-others :
        (d : Result (Fault Failure) (Obj k)) (l : Kind) (key' : Key)
        → Differ k key l key'
        → (settle denied k key s d).1 l key' ≡ s l key'
    unfolding settle
    settle-others (err c) l key' h = refl
    settle-others (ok m) l key' h = ground (arith, update_others k key m s l key' h)

  store_status-written :
      (d : Bool) (k : Kind) (o : Obj k) (s : Table) (r : Option (Obj k))
      → ((a : Obj k) → r ≡ some a → a.meta.key ≡ o.meta.key)
      → (store_status d k o s r).0 ≡ ok tt
      → (stored : Obj k) × (found r ≡ ok stored)
        × (found (checked k o.meta.key ((store_status d k o s r).1 k o.meta.key))
            ≡ ok (record stored { status = o.status }))
  unfolding store_status
  store_status-written d k o s none own h = cc
  store_status-written true k o s (some a) own h = cc h
  store_status-written false k o s (some a) own h = (
    a,
    refl,
    rw (update_self k o.meta.key (record a { status = o.status }) s)
        (checked_self k o.meta.key (record a { status = o.status }) (own a refl)),
  )

  store_status-failed :
      (d : Bool) (k : Kind) (o : Obj k) (s : Table) (r : Option (Obj k)) (e : Failure)
      → (store_status d k o s r).0 ≡ err e
      → (store_status d k o s r).1 ≡ s
  unfolding store_status
  store_status-failed d k o s none e h = refl
  store_status-failed true k o s (some a) e h = refl
  store_status-failed false k o s (some a) e h = cc

  store_status-others :
      (d : Bool) (k : Kind) (o : Obj k) (s : Table) (r : Option (Obj k)) (l : Kind) (key : Key)
      → Differ k o.meta.key l key
      → (store_status d k o s r).1 l key ≡ s l key
  unfolding store_status
  store_status-others d k o s none l key differ = refl
  store_status-others true k o s (some a) l key differ = refl
  store_status-others false k o s (some a) l key differ =
      update_others k o.meta.key (record a { status = o.status }) s l key differ

  checked-key :
      (k : Kind) (key : Key) (o : Obj k) (r : Option (Obj k))
      → found (checked k key r) ≡ ok o
      → o.meta.key ≡ key
  checked-key k key o none h = cc h
  checked-key k key o (some a) h = elim (Bool-cases (key_eq a.meta.key key)) [
    | inl same ↦
        let found_a : found (checked k key (some a)) ≡ ok a = rw same in
        let e : a ≡ o = cc (found_a, h) in
        ap (λ (x : Obj k). x.meta.key) (sym e) ∙ key_eq_sound a.meta.key key same
    | inr differ ↦
        let none_found : found (checked k key (some a)) ≡ err not_found = rw differ in
        cc (none_found, h)
  ]

  pub memory-IsLawful : IsLawful memory
  memory-IsLawful = record {
    own_key = λ k key s o h. checked-key k key o (s k key) h;
    written = λ k o f s o' h.
        let (d, stored) =
          settle-written k o.meta.key s (attempt k o f (checked k o.meta.key (s k o.meta.key))) o'
            h in
        (sym (attempt-desired k o f (checked k o.meta.key (s k o.meta.key))) ∙ d, stored);
    refused = λ k o f s e h.
        ap (settle denied k o.meta.key s)
          (attempt-desired k o f (checked k o.meta.key (s k o.meta.key)) ∙ h)
        ∙ settle_err k o.meta.key s e;
    failed = λ k o f s e h. inl (
        ap (λ (t : Table). found (checked k o.meta.key (t k o.meta.key)))
          (settle-failed k o.meta.key s (attempt k o f (checked k o.meta.key (s k o.meta.key))) e
            h));
    no_panic = λ k o f s h.
        sym (attempt-desired k o f (checked k o.meta.key (s k o.meta.key)))
        ∙ settle-no_panic k o.meta.key s (attempt k o f (checked k o.meta.key (s k o.meta.key))) h;
    others = λ k o f s l key d.
        ap (λ r. found (checked l key r))
          (settle-others k o.meta.key s (attempt k o f (checked k o.meta.key (s k o.meta.key))) l
            key d);
    status_written = λ k o s h.
        store_status-written (status_denied k) k o s (checked k o.meta.key (s k o.meta.key))
          (λ a e. checked-key k o.meta.key a (s k o.meta.key) (ap found e)) h;
    status_failed = λ k o s e h. inl (
        ap (λ (t : Table). found (checked k o.meta.key (t k o.meta.key)))
          (store_status-failed (status_denied k) k o s (checked k o.meta.key (s k o.meta.key)) e
            h));
    status_others = λ k o s l key d.
        ap (λ r. found (checked l key r))
          (store_status-others (status_denied k) k o s (checked k o.meta.key (s k o.meta.key)) l key
            d);
    referenced = λ owner meta k o o' h. cc;
  }

-- A table that forbids nothing.
abbrev pub open_memory : Platform
open_memory = memory (λ _. false) (λ _. false)

missing-found : {A : Type 0} (r : Option A) (e : Failure) → found r ≡ err e → missing e ≡ true
missing-found none e h = ground arith
missing-found (some a) e h = cc h

settle-open :
    (k : Kind) (key : Key) (s : Table) (m : Obj k)
    → m.meta.key ≡ key
    → (settle (λ _. false) k key s (ok m)).0 ≡ ok m
unfolding settle
settle-open k key s m same = rw (same, key_eq_refl key)

store_status-open :
    (k : Kind) (o : Obj k) (s : Table) (stored : Obj k) (r : Option (Obj k))
    → found r ≡ ok stored
    → (store_status false k o s r).0 ≡ ok tt
unfolding store_status
store_status-open k o s stored none h = cc h
store_status-open k o s stored (some a) h = refl

pub open_memory-IsHealthy : IsHealthy open_memory
open_memory-IsHealthy = record {
  only_missing = λ k key s e h. missing-found (checked k key (s k key)) e h;
  references = λ owner meta k o. (controlled owner meta k o, refl);
  writes = λ k o f s m wanted same.
      let asked =
        attempt-desired (λ _. false) (λ _. false) k o f (checked k o.meta.key (s k o.meta.key)) in
      ap (λ d. (settle (λ _. false) k o.meta.key s d).0) (asked ∙ wanted)
      ∙ settle-open k o.meta.key s m same;
  status_writes =
      λ k o stored s h. store_status-open k o s stored (checked k o.meta.key (s k o.meta.key)) h;
}

pub get-absent :
    (k : Kind) (key : Key) (s : Table) → s k key ≡ none → open_memory.get k key s ≡ err not_found
get-absent k key s absent = rw absent refl
