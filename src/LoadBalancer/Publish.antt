-- ===== src/LoadBalancer/Publish.antt =====
-- How the publication of an address ends.
use kubeception_operator.Base.{
  ◌≡◌, refl, sym, ap, ◌∙◌, subst, ◌⊎◌, inl, inr, Result, ok, err, List, [], ◌∷◌,
}
use kubeception_operator.Types.Crd.{Loadbalancer}
use kubeception_operator.Types.Core.{Ingress}
use kubeception_operator.Types.Kinds.{Kind}
use kubeception_operator.Platform.Interface.{Platform, IsLawful}
use kubeception_operator.Platform.Fetch.{done}
use kubeception_operator.LoadBalancer.{publish, status_updated}

-- The load balancer with the Service's first address, if it has one yet.
abbrev pub published : Loadbalancer → List Ingress → Loadbalancer
published lb [] = lb
published lb (ingress ∷ _) = record lb { status = record { ip = ingress.ip } }

module _ (P : Platform) where
  open P use {State, Error, get, update_status}

  status_updated-done :
      (answer : Result Error (Unit {0})) (s : State) → status_updated P answer s ≡ (ok done, s)
  status_updated-done (ok a) s = refl
  status_updated-done (err e) s = refl

  -- An address is written once, and the answer does not change how the method ends.
  pub publish-cons :
      (lb : Loadbalancer) (i : Ingress) (l : List Ingress) (s : State)
      → publish P lb (i ∷ l) s
        ≡ (ok done, (update_status Kind.loadbalancer (published lb (i ∷ l)) s).1)
  unfolding publish
  publish-cons lb i l s =
      status_updated-done (update_status Kind.loadbalancer (published lb (i ∷ l)) s).0 _

  pub publish-done :
      (lb : Loadbalancer) (l : List Ingress) (s : State) → (publish P lb l s).0 ≡ ok done
  unfolding publish
  publish-done lb [] s = refl
  publish-done lb (i ∷ l) s = ap (λ x. x.0) (publish-cons lb i l s)

module _ (P : Platform) (L : IsLawful P) where
  open P use {State, Error, get, update_status}

  -- The load balancer has the address, or the update of its status has failed and it is as it was.
  abbrev pub StoredOrKept : Loadbalancer → List Ingress → State → State → Type 0
  StoredOrKept lb l s s' =
      (get Kind.loadbalancer lb.meta.key s' ≡ ok (published lb l))
      ⊎ ((e : Error) × ((update_status Kind.loadbalancer (published lb l) s).0 ≡ err e)
          × (get Kind.loadbalancer lb.meta.key s' ≡ ok lb))

  pub publish-StoredOrKept :
      (lb : Loadbalancer) (l : List Ingress) (s : State)
      → get Kind.loadbalancer lb.meta.key s ≡ ok lb
      → StoredOrKept lb l s (publish P lb l s).1
  unfolding publish
  publish-StoredOrKept lb [] s found = inl found
  publish-StoredOrKept lb (i ∷ l) s found =
      subst (λ x. StoredOrKept lb (i ∷ l) s x.1) (sym (publish-cons P lb i l s))
        (split (update_status Kind.loadbalancer o s).0 refl)
    where
      o : Loadbalancer
      o = published lb (i ∷ l)

      stored_now :
          (stored : Loadbalancer)
          → get Kind.loadbalancer lb.meta.key s ≡ ok stored
          → get Kind.loadbalancer lb.meta.key (update_status Kind.loadbalancer o s).1
            ≡ ok (record stored { status = o.status })
          → get Kind.loadbalancer lb.meta.key (update_status Kind.loadbalancer o s).1 ≡ ok o
      stored_now stored at after =
          let same : stored ≡ lb = cc (at, found) in
          after ∙ ap (λ (x : Loadbalancer). ok (record x { status = o.status })) same

      split :
          (answer : Result Error (Unit {0}))
          → (update_status Kind.loadbalancer o s).0 ≡ answer
          → StoredOrKept lb (i ∷ l) s (update_status Kind.loadbalancer o s).1
      split (ok a) e =
          let (stored, at, after) = L.status_written Kind.loadbalancer o s e in
          inl (stored_now stored at after)
      split (err c) e = elim (L.status_failed Kind.loadbalancer o s c e) [
        | inl same ↦ inr (c, e, same ∙ found)
        | inr (stored, at, after) ↦ inl (stored_now stored at after)
      ]
