-- ===== src/DeepCopy/Shape.antt =====
-- What a deep copy promises, for any type of structs: how it is read through a heap, and which
-- cells it refers to.
use kubeception_operator.Base.{ℕ, zero, ◌≤◌, ◌<◌, ◌≡◌, refl, ap, ◌∙◌, arith}
use kubeception_operator.Base.Dict.{NodupKeys}
use kubeception_operator.DeepCopy.Heap.{Heap}
use kubeception_operator.DeepCopy.Into.{Copy}

-- No map lists a key twice.
abbrev pub IsWellFormed : Heap → Type 0
IsWellFormed h = (r : ℕ) → NodupKeys (h.maps r)

-- The cells from `lo` up to `hi` have the same contents.
abbrev pub Agrees : ℕ → ℕ → Heap → Heap → Type 0
Agrees lo hi h h' = (r : ℕ) → lo ≤ r → r < hi → (h'.maps r ≡ h.maps r) × (h'.slices r ≡ h.slices r)

pub record Shape (A : Type 0) : Type 1 where
  pub Seen : Type 0
  -- What a program sees that follows the references.
  pub see : Heap → A → Seen
  -- All references are to cells from the first bound up to the second.
  pub Within : ℕ → ℕ → A → Type 0
  -- Only these cells are read.
  pub see_local :
      (lo hi : ℕ) (a : A) (h h' : Heap) → Within lo hi a → Agrees lo hi h h' → see h' a ≡ see h a
  pub widen : (lo lo' hi hi' : ℕ) (a : A) → lo' ≤ lo → hi ≤ hi' → Within lo hi a → Within lo' hi' a

-- What a copy does to one value. It reads as the original, refers to new cells only, and leaves
-- the cells that were there.
pub record Copies {A : Type 0} (S : Shape A) (a : A) (h : Heap) (x : A × Heap) : Type 0 where
  pub same : S.see x.1 x.0 ≡ S.see h a
  pub apart : S.Within h.next x.1.next x.0
  pub kept : Agrees zero h.next h x.1
  pub grows : h.next ≤ x.1.next
  pub well_formed : IsWellFormed x.1

-- A copy of any value whose references are to cells in use.
abbrev pub IsDeepCopy : {A : Type 0} → Shape A → Copy A → Type 0
IsDeepCopy {A} S into =
    (a : A) (h : Heap) → IsWellFormed h → S.Within zero h.next a → Copies S a h (into a h)

-- The original reads after the copy as it did before.
pub original_kept :
    {A : Type 0} (S : Shape A) (a : A) (h : Heap) (x : A × Heap)
    → S.Within zero h.next a
    → Copies S a h x
    → S.see x.1 a ≡ S.see h a
original_kept S a h x within c = S.see_local zero h.next a h x.1 within c.kept

pub ap2 : {C D : Type 0} (c c' : C) (d d' : D) → c ≡ c' → d ≡ d' → ◌≡◌ {A = C × D} (c, d) (c', d')
ap2 c c' d d' p q = cc (p, q)

-- Two copies in a row, of parts of one value.
abbrev pub pair : {A B : Type 0} → Shape A → Shape B → Shape (A × B)
pair SA SB = record {
  Seen = SA.Seen × SB.Seen;
  see = λ h x. (SA.see h x.0, SB.see h x.1);
  Within = λ lo hi x. SA.Within lo hi x.0 × SB.Within lo hi x.1;
  see_local = λ lo hi x h h' w agrees.
      ap2 _ _ _ _ (SA.see_local lo hi x.0 h h' w.0 agrees) (SB.see_local lo hi x.1 h h' w.1 agrees);
  widen = λ lo lo' hi hi' x down up w.
      (SA.widen lo lo' hi hi' x.0 down up w.0, SB.widen lo lo' hi hi' x.1 down up w.1);
}

abbrev pub copy_pair : {A B : Type 0} → Copy A → Copy B → Copy (A × B)
copy_pair first second x h =
    let (a, h1) = first x.0 h in let (b, h2) = second x.1 h1 in ((a, b), h2)

-- The second copy starts where the first one ended.
pub Copies-pair :
    {A B : Type 0} (SA : Shape A) (SB : Shape B) (a : A) (b : B) (h : Heap) (x : A × Heap)
    (y : B × Heap)
    → SB.Within zero h.next b
    → Copies SA a h x
    → Copies SB b x.1 y
    → Copies (pair SA SB) (a, b) h ((x.0, y.0), y.1)
Copies-pair SA SB a b h (a', h1) (b', h2) in_b c d =
    let agrees : Agrees h.next h1.next h1 h2 = λ r _ below. d.kept r (omega arith) below in
    record {
      same = ground (
        arith,
        SA.see_local h.next h1.next a' h1 h2 c.apart agrees,
        c.same,
        d.same,
        SB.see_local zero h.next b h h1 in_b c.kept,
      );
      apart = (
        SA.widen h.next h.next h1.next h2.next a' (omega arith) d.grows c.apart,
        SB.widen h1.next h.next h2.next h2.next b' c.grows (omega arith) d.apart,
      );
      kept = λ r low below.
          let (m1, s1) = c.kept r low below in
          let (m2, s2) = d.kept r low (omega (arith, c.grows, below)) in (m2 ∙ m1, s2 ∙ s1);
      grows = omega (arith, c.grows, d.grows);
      well_formed = d.well_formed;
    }

-- What was in use before the first copy is in use after it.
pub still_within :
    {A B : Type 0} (SA : Shape A) (SB : Shape B) (a : A) (b : B) (h : Heap) (x : A × Heap)
    → Copies SA a h x
    → SB.Within zero h.next b
    → SB.Within zero x.1.next b
still_within SA SB a b h x c in_b = SB.widen zero zero h.next x.1.next b (omega arith) c.grows in_b

pub copy_pair-IsDeepCopy :
    {A B : Type 0} (SA : Shape A) (SB : Shape B) (first : Copy A) (second : Copy B)
    → IsDeepCopy SA first
    → IsDeepCopy SB second
    → IsDeepCopy (pair SA SB) (copy_pair first second)
copy_pair-IsDeepCopy SA SB first second one two (a, b) h wf (in_a, in_b) =
    let c = one a h wf in_a in
    Copies-pair SA SB a b h (first a h) (second b (first a h).1) in_b c
      (two b (first a h).1 c.well_formed (still_within SA SB a b h (first a h) c in_b))

-- A struct is seen as its parts are: what holds of the copy of the parts, in order, holds of the
-- copy of the struct.
abbrev pub struct : {A B C : Type 0} (S : Shape B) (parts : A → B) (seen : A → S.Seen → C) → Shape A
struct {C} S parts seen = record {
  Seen = C;
  see = λ h a. seen a (S.see h (parts a));
  Within = λ lo hi a. S.Within lo hi (parts a);
  see_local = λ lo hi a h h' w agrees. ap (seen a) (S.see_local lo hi (parts a) h h' w agrees);
  widen = λ lo lo' hi hi' a down up w. S.widen lo lo' hi hi' (parts a) down up w;
}

pub struct-IsDeepCopy :
    {A B C : Type 0} (S : Shape B) (parts : A → B) (seen : A → S.Seen → C) (into : Copy A)
    (into_parts : Copy B)
    → ((a : A) (h : Heap) → parts (into a h).0 ≡ (into_parts (parts a) h).0)
    → ((a : A) (h : Heap) → (into a h).1 ≡ (into_parts (parts a) h).1)
    → ((a : A) (h : Heap) (x : S.Seen) → seen (into a h).0 x ≡ seen a x)
    → IsDeepCopy S into_parts
    → IsDeepCopy (struct S parts seen) into
struct-IsDeepCopy S parts seen into into_parts fields heap rest copies a h wf within =
    let c = copies (parts a) h wf within in
    record {
      same = rw (fields a h, heap a h, rest a h, c.same) refl;
      apart = rw (fields a h, heap a h) c.apart;
      kept = rw (heap a h) c.kept;
      grows = rw (heap a h) c.grows;
      well_formed = rw (heap a h) c.well_formed;
    }
