-- ===== src/Base/Dict/Keys.antt =====
-- The loops that write a map keep its keys different.
use kubeception_operator.Base.{◌≡◌, refl, [], ◌∷◌, String, ◌==◌, false, Bool-cases, inl, inr, arith}
use kubeception_operator.Base.Dict.Loops.{Entries, find, insert, insert_all, NodupKeys, find-insert}

module _ {ℓ} {V : Type ℓ} where
  insert-NodupKeys : (k : String) (v : V) (l : Entries V) → NodupKeys l → NodupKeys (insert k v l)
  unfolding insert find
  insert-NodupKeys k v [] u = (refl, tt)
  insert-NodupKeys k v ((j, w) ∷ l) (fresh, u) = elim (Bool-cases (k == j)) [
    | inl same ↦ let e : k ≡ j = ground (arith, same) in rw same ((rw e fresh), u)
    | inr differ ↦
        let other : (j == k) ≡ false = ground (arith, differ) in
        rw differ ((rw (find-insert j k v l, other) fresh), insert-NodupKeys k v l u)
  ]

  pub insert_all-NodupKeys : (source l : Entries V) → NodupKeys l → NodupKeys (insert_all source l)
  unfolding insert_all
  insert_all-NodupKeys [] l u = u
  insert_all-NodupKeys ((k, v) ∷ source) l u =
      insert_all-NodupKeys source (insert k v l) (insert-NodupKeys k v l u)
