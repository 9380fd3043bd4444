-- ===== src/Base/Dict/Loops.antt =====
-- Reads, writes and `range` loops over a map.
use Prim.Native.String.{String}
use mathlib.Core.Path.{◌≡◌, refl}
use mathlib.Core.Option.{Option, none, some, or_else}
use mathlib.Core.List.{List, [], ◌∷◌}
use native.Mathlib.Omega.{arith}
use kubeception_operator.Base.Tests.{◌==◌, if◌then◌else◌}

abbrev pub Entries {ℓ} : Type ℓ → Type ℓ
Entries V = List (String × V)

-- `made` holds the entries of a map that is not nil.
pub data Dict {ℓ} (V : Type ℓ) : Type ℓ where
  nil : Dict V
  made : Entries V → Dict V

module _ {ℓ} {V : Type ℓ} where
  abbrev pub entries : Dict V → Entries V
  entries nil = []
  entries (made l) = l

  unfoldable pub find : String → Entries V → Option V
  find k [] = none
  find k ((j, v) ∷ l) = if k == j then some v else find k l

  unfoldable pub insert : String → V → Entries V → Entries V
  insert k v [] = (k, v) ∷ []
  insert k v ((j, w) ∷ l) = if k == j then (k, v) ∷ l else (j, w) ∷ insert k v l

  -- `for k, v := range source { target[k] = v }` where `target` is not nil.
  unfoldable pub insert_all : Entries V → Entries V → Entries V
  insert_all [] l = l
  insert_all ((k, v) ∷ source) l = insert_all source (insert k v l)

  -- The same loop over any target; `none` is the panic on a nil map.
  unfoldable pub assign_all : Entries V → Dict V → Option (Dict V)
  assign_all [] target = some target
  assign_all ((k, v) ∷ source) nil = none
  assign_all ((k, v) ∷ source) (made l) = assign_all source (made (insert k v l))

  -- No key is listed twice, as in every Go map.
  abbrev pub NodupKeys : Entries V → Type ℓ
  NodupKeys [] = Unit
  NodupKeys ((k, _) ∷ l) = (find k l ≡ none) × NodupKeys l

  -- `m[k]`, with its second result.
  abbrev pub lookup : String → Dict V → Option V
  lookup k m = find k (entries m)

module _ {ℓ} {V : Type ℓ} where
  pub find-insert :
      (j k : String) (v : V) (l : Entries V)
      → find j (insert k v l) ≡ (if j == k then some v else find j l)
  unfolding find insert
  find-insert j k v [] = refl
  find-insert j k v ((i, w) ∷ l) = ground (arith, find-insert j k v l)

  -- After the loop a key has its source's value if it has one, and its old value if not.
  pub find-insert_all :
      (j : String) (source l : Entries V)
      → NodupKeys source
      → find j (insert_all source l) ≡ or_else (find j source) (find j l)
  unfolding find insert_all or_else
  find-insert_all j [] l u = refl
  find-insert_all j ((k, v) ∷ source) l (fresh, u) =
      ground (arith, find-insert_all j source (insert k v l) u, find-insert j k v l)

  -- A map that was made takes every write.
  pub assign_all-made :
      (source l : Entries V) → assign_all source (made l) ≡ some (made (insert_all source l))
  unfolding assign_all insert_all
  assign_all-made [] l = refl
  assign_all-made ((k, v) ∷ source) l = assign_all-made source (insert k v l)

  -- The loop does nothing the second time.
  pub find-insert_all_twice :
      (j : String) (source l : Entries V)
      → NodupKeys source
      → find j (insert_all source (insert_all source l)) ≡ find j (insert_all source l)
  unfolding or_else
  find-insert_all_twice j source l u =
      ground (arith, find-insert_all j source l u, find-insert_all j source (insert_all source l) u)
