-- ===== src/DeepCopy/Lists.antt =====
-- The generated methods copy deeply: pointers, and the six lists of objects.
use kubeception_operator.Base.{ℕ, ◌≡◌, refl, ap, Option, none, some, List, [], ◌∷◌, ◌≤◌}
use kubeception_operator.DeepCopy.Heap.{Heap}
use kubeception_operator.DeepCopy.Structs.{ObjectOf, ListOf}
use kubeception_operator.DeepCopy.Into.{Copy, deep_copy, copy_items}
use kubeception_operator.DeepCopy.Objects.{
  into_control_plane, into_kube_api_server, into_kube_controller_manager, into_kube_scheduler,
  into_loadbalancer, into_pki,
}
use kubeception_operator.DeepCopy.ObjectLists.{
  into_control_plane_list, into_kube_api_server_list, into_kube_controller_manager_list,
  into_kube_scheduler_list, into_loadbalancer_list, into_pki_list,
}
use kubeception_operator.DeepCopy.Shape.{
  Shape, Agrees, IsDeepCopy, pair, Copies-pair, still_within, copy_pair, copy_pair-IsDeepCopy,
  struct, struct-IsDeepCopy,
}
use kubeception_operator.DeepCopy.Basic.{nothing_copied}
use kubeception_operator.DeepCopy.Copies.{
  control_plane_spec_shape, kube_api_server_spec_shape, kube_controller_manager_spec_shape,
  kube_scheduler_spec_shape, loadbalancer_spec_shape, pki_spec_shape,
}
use kubeception_operator.DeepCopy.Runs.{object_shape, objects-IsDeepCopy}

-- `DeepCopy` on a pointer: nil is copied to nil, and a struct deeply.
abbrev pub pointer_shape : {A : Type 0} → Shape A → Shape (Option A)
pointer_shape S = record {
  Seen = Option S.Seen;
  see = λ h. elim [ none ↦ none | some a ↦ some (S.see h a) ];
  Within = λ lo hi. elim [ none ↦ Unit | some a ↦ S.Within lo hi a ];
  see_local = λ lo hi. elim [
    | none ↦ λ h h' w agrees. refl
    | some a ↦ λ h h' w agrees. ap some (S.see_local lo hi a h h' w agrees)
  ];
  widen = λ lo lo' hi hi'. elim [
    | none ↦ λ down up w. tt
    | some a ↦ λ down up w. S.widen lo lo' hi hi' a down up w
  ];
}

pub deep_copy-IsDeepCopy :
    {A : Type 0} (S : Shape A) (into : Copy A)
    → IsDeepCopy S into
    → IsDeepCopy (pointer_shape S) (deep_copy into)
deep_copy-IsDeepCopy S into copies none h wf within = nothing_copied (pointer_shape S) none h wf tt
deep_copy-IsDeepCopy S into copies (some a) h wf within =
    let c = copies a h wf within in
    record {
      same = ap some c.same;
      apart = c.apart;
      kept = c.kept;
      grows = c.grows;
      well_formed = c.well_formed;
    }

-- The items one after the other.
module _ {A : Type 0} (S : Shape A) where
  abbrev pub see_items : Heap → List A → List S.Seen
  see_items h [] = []
  see_items h (a ∷ l) = S.see h a ∷ see_items h l

  abbrev pub ItemsWithin : ℕ → ℕ → List A → Type 0
  ItemsWithin lo hi [] = Unit
  ItemsWithin lo hi (a ∷ l) = S.Within lo hi a × ItemsWithin lo hi l

  pub see_items_local :
      (lo hi : ℕ) (l : List A) (h h' : Heap)
      → ItemsWithin lo hi l
      → Agrees lo hi h h'
      → see_items h' l ≡ see_items h l
  see_items_local lo hi [] h h' w agrees = refl
  see_items_local lo hi (a ∷ l) h h' (first, rest) agrees =
      rw (S.see_local lo hi a h h' first agrees, see_items_local lo hi l h h' rest agrees) refl

  pub ItemsWithin-widen :
      (lo lo' hi hi' : ℕ) (l : List A)
      → lo' ≤ lo
      → hi ≤ hi'
      → ItemsWithin lo hi l
      → ItemsWithin lo' hi' l
  ItemsWithin-widen lo lo' hi hi' [] down up w = tt
  ItemsWithin-widen lo lo' hi hi' (a ∷ l) down up (first, rest) =
      (S.widen lo lo' hi hi' a down up first, ItemsWithin-widen lo lo' hi hi' l down up rest)

  abbrev pub list_shape : Shape (List A)
  list_shape = record {
    Seen = List S.Seen;
    see = see_items;
    Within = ItemsWithin;
    see_local = see_items_local;
    widen = ItemsWithin-widen;
  }

  pub copy_items-IsDeepCopy :
      (into : Copy A) → IsDeepCopy S into → IsDeepCopy list_shape (copy_items into)
  unfolding copy_items
  copy_items-IsDeepCopy into copies [] h wf within = nothing_copied list_shape [] h wf tt
  copy_items-IsDeepCopy into copies (a ∷ l) h wf (first, rest) =
      let c = copies a h wf first in
      let h1 = (into a h).1 in
      let d =
        copy_items-IsDeepCopy into copies l h1 c.well_formed
          (still_within S list_shape a l h (into a h) c rest) in
      let both = Copies-pair S list_shape a l h (into a h) (copy_items into l h1) rest c d in
      record {
        same = ap (λ x. x.0 ∷ x.1) both.same;
        apart = both.apart;
        kept = both.kept;
        grows = both.grows;
        well_formed = both.well_formed;
      }

-- The copies of metadata, which are apimachinery's.
module _ {Meta ListMeta : Type 0} (M : Shape Meta) (LM : Shape ListMeta) (copy_meta : Copy Meta)
    (copy_list_meta : Copy ListMeta) (meta : IsDeepCopy M copy_meta)
    (list_meta : IsDeepCopy LM copy_list_meta) where
  abbrev pub items_shape : {A : Type 0} → Shape A → Shape (Option (List A))
  items_shape S = pointer_shape (list_shape S)

  abbrev pub list_seen :
      {A Seen : Type 0} → ListOf ListMeta A → LM.Seen × Option (List Seen) → ListOf LM.Seen Seen
  list_seen l x = record { type_meta = l.type_meta; meta = x.0; items = x.1 }

  abbrev pub object_list_shape : {A : Type 0} → Shape A → Shape (ListOf ListMeta A)
  object_list_shape S = struct (pair LM (items_shape S)) (λ l. (l.meta, l.items)) list_seen

  abbrev list_of :
      {Spec Status : Type 0} → Shape Spec → Shape (ListOf ListMeta (ObjectOf Meta Spec Status))
  list_of S = object_list_shape (object_shape M copy_meta meta S)

  -- The lists of all six kinds are copied deeply, if their own metadata and that of their items are:
  -- the same items in the same order, or nil; references to new cells only; and no change of a cell
  -- that was there.
  pub lists-IsDeepCopy :
      IsDeepCopy
        (list_of control_plane_spec_shape)
        (into_control_plane_list copy_meta copy_list_meta)
      × IsDeepCopy
          (list_of kube_api_server_spec_shape)
          (into_kube_api_server_list copy_meta copy_list_meta)
      × IsDeepCopy
          (list_of kube_controller_manager_spec_shape)
          (into_kube_controller_manager_list copy_meta copy_list_meta)
      × IsDeepCopy
          (list_of kube_scheduler_spec_shape)
          (into_kube_scheduler_list copy_meta copy_list_meta)
      × IsDeepCopy
          (list_of loadbalancer_spec_shape)
          (into_loadbalancer_list copy_meta copy_list_meta)
      × IsDeepCopy (list_of pki_spec_shape) (into_pki_list copy_meta copy_list_meta)
  unfolding into_control_plane_list into_kube_api_server_list into_kube_controller_manager_list
      into_kube_scheduler_list into_loadbalancer_list into_pki_list
  lists-IsDeepCopy =
      let (cp, kas, kcm, ks, lb, pki) = objects-IsDeepCopy M copy_meta meta in
      (
        of _ (into_control_plane copy_meta) cp,
        of _ (into_kube_api_server copy_meta) kas,
        of _ (into_kube_controller_manager copy_meta) kcm,
        of _ (into_kube_scheduler copy_meta) ks,
        of _ (into_loadbalancer copy_meta) lb,
        of _ (into_pki copy_meta) pki,
      )
    where
      of :
          {A : Type 0} (S : Shape A) (into : Copy A)
          → IsDeepCopy S into
          → IsDeepCopy (object_list_shape S) λ l h.
            let (m, h1) = copy_list_meta l.meta h in
            let (items, h2) = deep_copy (copy_items into) l.items h1 in
            (record l { meta = m; items = items }, h2)
      of S into copies =
          struct-IsDeepCopy (pair LM (items_shape S)) (λ l. (l.meta, l.items)) list_seen _
            (copy_pair copy_list_meta (deep_copy (copy_items into))) (λ l h. refl) (λ l h. refl)
            (λ l h x. refl)
            (copy_pair-IsDeepCopy LM (items_shape S) copy_list_meta (deep_copy (copy_items into))
              list_meta
              (deep_copy-IsDeepCopy (list_shape S) (copy_items into)
                (copy_items-IsDeepCopy S into copies)))
