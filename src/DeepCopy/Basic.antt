-- ===== src/DeepCopy/Basic.antt =====
-- The copies of a map and of a slice.
use mathlib.Core.Option.{or_else}
use kubeception_operator.Base.{
  ℕ, suc, ◌≤◌, ◌<◌, ◌≡◌, ◌≢◌, ◌⊎◌, inl, inr, refl, sym, ap, subst, ◌∙◌, fun_ext, String, Option,
  none, some, List, [], ◌∷◌, arith,
}
use kubeception_operator.Base.Dict.{
  Entries, find, insert, insert_all, NodupKeys, insert_all-NodupKeys, find-insert_all,
}
use kubeception_operator.DeepCopy.Heap.{
  Heap, MapRef, SliceRef, set_cell, set_entry, fill, copy_map, copy_slice,
}
use kubeception_operator.DeepCopy.Into.{copy_plain}
use kubeception_operator.DeepCopy.Shape.{IsWellFormed, Agrees, Shape, Copies, IsDeepCopy}

module _ {A : Type 0} (f : ℕ → A) (r : ℕ) (x : A) where
  pub set_cell_self : set_cell f r x r ≡ x
  set_cell_self = ground arith

  pub set_cell_other : (q : ℕ) → r ≢ q → set_cell f r x q ≡ f q
  set_cell_other q n = ground arith

compare-cases : (r q : ℕ) → (r ≡ q) ⊎ (r ≢ q)
compare-cases r q = ground arith

set_cell_same : {A : Type 0} (f : ℕ → A) (r : ℕ) → set_cell f r (f r) ≡ f
set_cell_same f r = fun_ext λ q. elim (compare-cases r q) [
  | inl same ↦ rw (← same) (set_cell_self f r (f r))
  | inr n ↦ set_cell_other f r (f r) q n
]

set_cell_twice :
    {A : Type 0} (f : ℕ → A) (r : ℕ) (x y : A) → set_cell (set_cell f r x) r y ≡ set_cell f r y
set_cell_twice f r x y = fun_ext λ q. ground arith

pub set_cell-NodupKeys :
    (f : ℕ → Entries String) (r : ℕ) (x : Entries String) (q : ℕ)
    → ((p : ℕ) → NodupKeys (f p))
    → NodupKeys x
    → NodupKeys (set_cell f r x q)
set_cell-NodupKeys f r x q wf u = elim (compare-cases r q) [
  | inl here ↦
      subst (λ p. NodupKeys (set_cell f r x p)) here (subst NodupKeys (sym (set_cell_self f r x)) u)
  | inr n ↦ subst NodupKeys (sym (set_cell_other f r x q n)) (wf q)
]

-- The loop writes one cell, entry by entry.
pub fill_lem :
    (r : ℕ) (source : Entries String) (h : Heap)
    → fill r source h ≡ record h { maps = set_cell h.maps r (insert_all source (h.maps r)) }
unfolding fill insert_all
fill_lem r [] h = ap (λ m. record h { maps = m }) (sym (set_cell_same h.maps r))
fill_lem r ((key, val) ∷ source) h =
    fill_lem r source (set_entry r key val h)
    ∙ ap (λ m. record h { maps = m })
        (set_cell_twice h.maps r _ _
          ∙ ap (λ es. set_cell h.maps r (insert_all source es))
              (set_cell_self h.maps r (insert key val (h.maps r))))

-- Fields that hold no reference.
abbrev pub plain : (A : Type 0) → Shape A
plain A = record {
  Seen = A;
  see = λ h a. a;
  Within = λ lo hi a. Unit;
  see_local = λ lo hi a h h' w agrees. refl;
  widen = λ lo lo' hi hi' a down up w. tt;
}

pub copy_plain-IsDeepCopy : {A : Type 0} → IsDeepCopy (plain A) copy_plain
copy_plain-IsDeepCopy a h wf within = record {
  same = refl;
  apart = tt;
  kept = λ r low below. (refl, refl);
  grows = omega arith;
  well_formed = wf;
}

-- A reference is nil, or to a cell in the range.
abbrev pub RefWithin : ℕ → ℕ → Option ℕ → Type 0
RefWithin lo hi none = Unit
RefWithin lo hi (some r) = (lo ≤ r) × (r < hi)

pub RefWithin-widen :
    (lo lo' hi hi' : ℕ) (r : Option ℕ)
    → lo' ≤ lo
    → hi ≤ hi'
    → RefWithin lo hi r
    → RefWithin lo' hi' r
RefWithin-widen lo lo' hi hi' none down up w = tt
RefWithin-widen lo lo' hi hi' (some r) down up (low, below) =
    (omega (arith, down, low), omega (arith, up, below))

-- A map is seen by its lookups, so its order is not.
abbrev pub MapSeen : Type 0
MapSeen = Option (String → Option String)

abbrev pub see_map : Heap → MapRef → MapSeen
see_map h none = none
see_map h (some r) = some (λ k. find k (h.maps r))

pub see_map_local :
    (lo hi : ℕ) (r : MapRef) (h h' : Heap)
    → RefWithin lo hi r
    → Agrees lo hi h h'
    → see_map h' r ≡ see_map h r
see_map_local lo hi none h h' w agrees = refl
see_map_local lo hi (some r) h h' (low, below) agrees =
    ap (λ es. some (λ k. find k es)) ((agrees r low below).0)

abbrev pub map_shape : Shape MapRef
map_shape = record {
  Seen = MapSeen;
  see = see_map;
  Within = RefWithin;
  see_local = see_map_local;
  widen = RefWithin-widen;
}

abbrev pub SliceSeen : Type 0
SliceSeen = Option (List String)

abbrev pub see_slice : Heap → SliceRef → SliceSeen
see_slice h none = none
see_slice h (some r) = some (h.slices r)

pub see_slice_local :
    (lo hi : ℕ) (r : SliceRef) (h h' : Heap)
    → RefWithin lo hi r
    → Agrees lo hi h h'
    → see_slice h' r ≡ see_slice h r
see_slice_local lo hi none h h' w agrees = refl
see_slice_local lo hi (some r) h h' (low, below) agrees = ap some ((agrees r low below).1)

abbrev pub slice_shape : Shape SliceRef
slice_shape = record {
  Seen = SliceSeen;
  see = see_slice;
  Within = RefWithin;
  see_local = see_slice_local;
  widen = RefWithin-widen;
}

-- nil is copied to nil.
pub nothing_copied :
    {A : Type 0} (S : Shape A) (a : A) (h : Heap)
    → IsWellFormed h
    → S.Within h.next h.next a
    → Copies S a h (a, h)
nothing_copied S a h wf w = record {
  same = refl;
  apart = w;
  kept = λ r low below. (refl, refl);
  grows = omega arith;
  well_formed = wf;
}

pub copy_slice-IsDeepCopy : IsDeepCopy slice_shape copy_slice
unfolding copy_slice
copy_slice-IsDeepCopy none h wf within = nothing_copied slice_shape none h wf tt
copy_slice-IsDeepCopy (some r) h wf within = record {
  same = ap some (set_cell_self h.slices h.next (h.slices r));
  apart = (omega arith, omega arith);
  kept =
      λ q low below. (refl, set_cell_other h.slices h.next (h.slices r) q (omega (arith, below)));
  grows = omega arith;
  well_formed = wf;
}

-- What the copy of a map that is there leaves.
copied : ℕ → Heap → Heap
copied r h = record h {
  next = suc h.next;
  maps = set_cell h.maps h.next (insert_all (h.maps r) []);
}

copy_map-copied : (r : ℕ) (h : Heap) → copy_map (some r) h ≡ (some h.next, copied r h)
unfolding copy_map copied
copy_map-copied r h =
    ap (λ h1. (some h.next, h1))
      (fill_lem h.next (h.maps r) _
        ∙ ap (λ m. record h { next = suc h.next; maps = m })
            (set_cell_twice h.maps h.next [] _
              ∙ ap (λ es. set_cell h.maps h.next (insert_all (h.maps r) es))
                  (set_cell_self h.maps h.next [])))

or_none : {A : Type 0} (o : Option A) → or_else o none ≡ o
unfolding or_else
or_none none = refl
or_none (some x) = refl

copied-Copies :
    (r : ℕ) (h : Heap) → IsWellFormed h → Copies map_shape (some r) h (some h.next, copied r h)
unfolding copied find insert_all
copied-Copies r h wf = record {
  same = ap some (
      fun_ext λ k.
        ap (find k) (set_cell_self h.maps h.next (insert_all (h.maps r) []))
        ∙ find-insert_all k (h.maps r) [] (wf r)
        ∙ or_none (find k (h.maps r)));
  apart = (omega arith, omega arith);
  kept = λ q low below. (set_cell_other h.maps h.next _ q (omega (arith, below)), refl);
  grows = omega arith;
  well_formed = λ q.
      set_cell-NodupKeys h.maps h.next (insert_all (h.maps r) []) q wf
        (insert_all-NodupKeys (h.maps r) [] tt);
}

pub copy_map-IsDeepCopy : IsDeepCopy map_shape copy_map
unfolding copy_map
copy_map-IsDeepCopy none h wf within = nothing_copied map_shape none h wf tt
copy_map-IsDeepCopy (some r) h wf within =
    subst (Copies map_shape (some r) h) (sym (copy_map-copied r h)) (copied-Copies r h wf)
