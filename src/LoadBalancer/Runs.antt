-- ===== src/LoadBalancer/Runs.antt =====
-- Whole runs of the load balancer's reconciler.
use kubeception_operator.Base.{◌≡◌, refl, sym, ap, subst, ◌∙◌, ok, ◌⊎◌, inl, inr, List, [], ◌∷◌}
use kubeception_operator.Types.Meta.{Key}
use kubeception_operator.Types.Crd.{Loadbalancer}
use kubeception_operator.Types.Core.{Ingress}
use kubeception_operator.Types.Kinds.{Kind, Obj}
use kubeception_operator.Types.Kinds.Zero.{fresh}
use kubeception_operator.Platform.Interface.{Platform, IsLawful, IsHealthy, Differ}
use kubeception_operator.Platform.Fetch.{done, or_done}
use kubeception_operator.Platform.Owned.{controlled, IsBase}
use kubeception_operator.Platform.Yields.{Yields, Yields-write}
use kubeception_operator.Platform.Healthy.{Succeeds, Succeeds-bind, Succeeds-apply_owned}
use kubeception_operator.Platform.Effects.{Touches, Touches-bind, Touches-apply_owned}
use kubeception_operator.Utils.{beside}
use kubeception_operator.LoadBalancer.Publish.{published, publish-cons, publish-done}
use kubeception_operator.LoadBalancer.{service_spec, mutate_service, publish, sync, reconcile}

module _ (P : Platform) (L : IsLawful P) where
  open P use {State, Error, get}

  -- An update of the status touches nothing else.
  pub publish-others :
      (lb : Loadbalancer) (l : List Ingress) (s : State) (k : Kind) (key : Key)
      → Differ Kind.loadbalancer lb.meta.key k key
      → get k key (publish P lb l s).1 ≡ get k key s
  unfolding publish
  publish-others lb [] s k key d = refl
  publish-others lb (i ∷ l) s k key d =
      ap (λ x. get k key x.1) (publish-cons P lb i l s)
      ∙ L.status_others Kind.loadbalancer (record lb { status = record { ip = i.ip } }) s k key d

  publish-stored :
      (H : IsHealthy P) (lb : Loadbalancer) (l : List Ingress) (s : State)
      → get Kind.loadbalancer lb.meta.key s ≡ ok lb
      → get Kind.loadbalancer lb.meta.key (publish P lb l s).1 ≡ ok (published lb l)
  unfolding publish
  publish-stored H lb [] s found = found
  publish-stored H lb (i ∷ l) s found =
      let lb' : Loadbalancer = record lb { status = record { ip = i.ip } } in
      let (stored, again, wrote) =
        L.status_written Kind.loadbalancer lb' s
          (H.status_writes Kind.loadbalancer lb' lb s found) in
      let e : stored ≡ lb = cc (again, found) in
      ap (λ x. get Kind.loadbalancer lb.meta.key x.1) (publish-cons P lb i l s)
      ∙ wrote
      ∙ ap (λ (x : Loadbalancer). ok (record x { status = lb'.status })) e

  module _ (req : Key) where
    pub reconcile-eq-sync :
        (lb : Loadbalancer) (s : State)
        → get Kind.loadbalancer req s ≡ ok lb
        → reconcile P req s ≡ sync P req lb s
    unfolding reconcile
    reconcile-eq-sync lb s found = ap (λ r. or_done P r (λ lb. sync P req lb) s) found

    -- The Service before the run, or a new one that the load balancer controls.
    abbrev pub IsService : Loadbalancer → State → Obj Kind.service → Type 0
    IsService lb s base =
        IsBase P Kind.service
          (controlled Kind.loadbalancer lb.meta Kind.service
            (fresh Kind.service req.namespace lb.spec.name))
          s base

    Published : Loadbalancer → State → State → Type 0
    Published lb s s' =
        (base : Obj Kind.service) × IsService lb s base
        × (get Kind.service (beside req lb.spec.name) s'
            ≡ ok (record base { spec = service_spec lb }))
        × (get Kind.loadbalancer req s' ≡ ok (published lb base.status.ingress))

    -- From the written Service on.
    finish :
        (H : IsHealthy P) (lb : Loadbalancer) (s s1 : State) (base service : Obj Kind.service)
        → IsService lb s base
        → service ≡ record base { spec = service_spec lb }
        → get Kind.service (beside req lb.spec.name) s1 ≡ ok service
        → get Kind.loadbalancer req s1 ≡ ok lb
        → lb.meta.key ≡ req
        → Yields (publish P lb service.status.ingress) s1 (λ a s'. (a ≡ done) × Published lb s s')
    unfolding Published
    finish H lb s s1 base service is_base e stored found own = record {
      holds = λ a h.
          let l = service.status.ingress in
          let same_status : l ≡ base.status.ingress =
            ap (λ (x : Obj Kind.service). x.status.ingress) e in
          let at_own : get Kind.loadbalancer lb.meta.key s1 ≡ ok lb =
            subst (λ key. get Kind.loadbalancer key s1 ≡ ok lb) (sym own) found in
          let at_req : get Kind.loadbalancer req (publish P lb l s1).1 ≡ ok (published lb l) =
            subst (λ key. get Kind.loadbalancer key (publish P lb l s1).1 ≡ ok (published lb l)) own
              (publish-stored H lb l s1 at_own) in
          (
            cc (publish-done P lb l s1, h),
            (
              base,
              is_base,
              publish-others lb l s1 Kind.service (beside req lb.spec.name) (λ d. cc (d.0))
                  ∙ stored
                  ∙ ap ok e,
              at_req ∙ ap (λ i. ok (published lb i)) same_status,
            ),
          );
    }

    sync-Published :
        IsHealthy P
        → (lb : Loadbalancer) (s : State) → get Kind.loadbalancer req s ≡ ok lb
        → Yields (sync P req lb) s (λ a s'. (a ≡ done) × Published lb s s')
    unfolding sync mutate_service Published
    sync-Published H lb s found =
        Yields-write P L Kind.loadbalancer lb.meta Kind.service
          (fresh Kind.service req.namespace lb.spec.name) (mutate_service lb) _ s
          λ service base s1 is_base made_by stored others.
            finish H lb s s1 base service is_base (cc made_by) stored
              (others Kind.loadbalancer req (λ e. cc (e.0)) ∙ found)
              (L.own_key Kind.loadbalancer req s lb found)

    sync-Succeeds : IsHealthy P → (lb : Loadbalancer) → Succeeds (sync P req lb)
    unfolding sync mutate_service
    sync-Succeeds H lb =
        Succeeds-bind _ _
          (Succeeds-apply_owned P L H Kind.loadbalancer lb.meta Kind.service
            (fresh Kind.service req.namespace lb.spec.name) (mutate_service lb)
            (λ b. (_, refl, refl)))
          λ service. record { result = λ s. (done, publish-done P lb service.status.ingress s) }

    -- On a platform that does not fail, a run for a load balancer that exists ends without an
    -- error. The Service has the generated specification and the status that it had, and the load
    -- balancer's status the Service's first address, if there is one.
    pub load_balancer_publishes :
        IsHealthy P
        → (lb : Loadbalancer) (s : State) → get Kind.loadbalancer req s ≡ ok lb
        → ((reconcile P req s).0 ≡ ok done)
          × ((base : Obj Kind.service) × IsService lb s base
              × (get Kind.service (beside req lb.spec.name) (reconcile P req s).1
                  ≡ ok (record base { spec = service_spec lb }))
              × (get Kind.loadbalancer req (reconcile P req s).1
                  ≡ ok (published lb base.status.ingress)))
    unfolding Published
    load_balancer_publishes H lb s found =
        let (ending, e) = (sync-Succeeds H lb).result s in
        let (is_done, result) = (sync-Published H lb s found).holds ending e in
        rw (reconcile-eq-sync lb s found) (rw is_done at e, result)

    abbrev Own : Loadbalancer → Kind → Key → Type 0
    Own lb k key =
        ((k ≡ Kind.service) × (key ≡ beside req lb.spec.name))
        ⊎ ((k ≡ Kind.loadbalancer) × (key ≡ req))

    sync-Touches : (lb : Loadbalancer) → lb.meta.key ≡ req → Touches P (Own lb) (sync P req lb)
    unfolding sync
    sync-Touches lb own =
        Touches-bind _ _
          (Touches-apply_owned L Kind.loadbalancer lb.meta Kind.service
            (fresh Kind.service req.namespace lb.spec.name) (mutate_service lb) (inl (refl, refl)))
          λ service. record {
            kept = λ s k key d.
                publish-others lb service.status.ingress s k key
                  (λ same. d (inr (sym same.0, sym same.1 ∙ own)));
          }

    -- However a run ends, it has left alone every object but the load balancer and its Service.
    pub load_balancer_kept :
        (lb : Loadbalancer) (s : State)
        → get Kind.loadbalancer req s ≡ ok lb
        → (k : Kind) (key : Key) → ¬ ((k ≡ Kind.service) × (key ≡ beside req lb.spec.name))
        → ¬ ((k ≡ Kind.loadbalancer) × (key ≡ req))
        → get k key (reconcile P req s).1 ≡ get k key s
    load_balancer_kept lb s found k key no_service no_lb = rw (reconcile-eq-sync lb s found) (
        (sync-Touches lb (L.own_key Kind.loadbalancer req s lb found)).kept s k key
          (elim [ inl same ↦ no_service same | inr same ↦ no_lb same ]))
