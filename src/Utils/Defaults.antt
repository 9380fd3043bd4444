-- ===== src/Utils/Defaults.antt =====
-- What `CoaleseString` chooses.
use mathlib.Core.Logic.{if_pos, if_neg}
use kubeception_operator.Base.{
  ◌≡◌, refl, ◌≢◌, ap, String, String_discrete, ◌↔◌, List, [], ◌∷◌, ◌++◌, arith,
}
use kubeception_operator.Utils.{coalesce_string}

abbrev pub AllEmpty : List String → Type 0
AllEmpty [] = Unit
AllEmpty (v ∷ args) = (v ≡ "") × AllEmpty args

-- The result is empty exactly when every argument is.
pub coalesce_string_empty : (args : List String) → (coalesce_string args ≡ "") ↔ AllEmpty args
unfolding coalesce_string
coalesce_string_empty [] = (λ _. tt, λ _. refl)
coalesce_string_empty (v ∷ args) = ground (arith, coalesce_string_empty args)

-- A result that is not empty is the first argument that is not: all before it are empty.
pub coalesce_string_first :
    (args : List String)
    → coalesce_string args ≢ ""
    → (before after : List String) × (args ≡ before ++ coalesce_string args ∷ after)
      × AllEmpty before
unfolding coalesce_string
coalesce_string_first [] h = absurd (h refl)
coalesce_string_first (v ∷ args) h = elim (String_discrete v "") [
  | yes e ↦
      let skip : coalesce_string (v ∷ args) ≡ coalesce_string args = rw (if_pos _ e) in
      let (before, after, p, q) = coalesce_string_first args (rw skip at h) in
      (v ∷ before, after, rw skip (ap (λ l. v ∷ l) p), (e, q))
  | no n ↦ ([], args, rw (if_neg _ n), tt)
]
