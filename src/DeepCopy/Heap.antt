-- ===== src/DeepCopy/Heap.antt =====
-- The heap that the copies work on, and the two loops that fill new maps and slices. A map or a
-- slice of a struct is a reference to a cell of the heap, or nil.
use Prim.Native.Nat.{Ordering, compare}
use kubeception_operator.Base.{ℕ, suc, String, Option, none, some, List, [], ◌∷◌}
use kubeception_operator.Base.Dict.{Entries, insert}

-- Cells below `next` are in use. A map's entries are listed in the order in which a `range` visits
-- them.
pub record Heap : Type 0 where
  pub next : ℕ
  pub maps : ℕ → Entries String
  pub slices : ℕ → List String

-- A field of a map type or of a slice type; `none` is nil.
abbrev pub MapRef : Type 0
MapRef = Option ℕ

abbrev pub SliceRef : Type 0
SliceRef = Option ℕ

abbrev pub set_cell : {A : Type 0} → (ℕ → A) → ℕ → A → ℕ → A
set_cell f r x q = elim (compare r q) [ Ordering.eq ↦ x | _ ↦ f q ]

-- `make(map[string]string)`
abbrev pub make_map : Heap → ℕ × Heap
make_map h = (h.next, record h { next = suc h.next; maps = set_cell h.maps h.next [] })

-- `m[key] = val`
abbrev pub set_entry : ℕ → String → String → Heap → Heap
set_entry r key val h = record h { maps = set_cell h.maps r (insert key val (h.maps r)) }

-- `for key, val := range in { out[key] = val }`
unfoldable pub fill : ℕ → Entries String → Heap → Heap
fill r [] h = h
fill r ((key, val) ∷ source) h = fill r source (set_entry r key val h)

-- `if in.Labels != nil { ... }`
unfoldable pub copy_map : MapRef → Heap → MapRef × Heap
copy_map none h = (none, h)
copy_map (some r) h = let (out, h1) = make_map h in (some out, fill out (h.maps r) h1)

-- `*out = make([]string, len(*in)); copy(*out, *in)`
unfoldable pub copy_slice : SliceRef → Heap → SliceRef × Heap
copy_slice none h = (none, h)
copy_slice (some r) h =
    (some h.next, record h { next = suc h.next; slices = set_cell h.slices h.next (h.slices r) })
