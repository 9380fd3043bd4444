-- ===== src/LoadBalancer/Ends.antt =====
-- How a run of the load balancer's reconciler can end, whichever of its calls fail.
use kubeception_operator.Base.{
  ◌≡◌, refl, sym, ap, subst, ◌∙◌, ◌⊎◌, inl, inr, Result, ok, err, Fault, List,
}
use kubeception_operator.Types.Meta.{Key}
use kubeception_operator.Types.Core.{Ingress}
use kubeception_operator.Types.Crd.{Loadbalancer}
use kubeception_operator.Types.Kinds.{Kind, Obj}
use kubeception_operator.Types.Kinds.Zero.{fresh}
use kubeception_operator.Platform.Exec.{Exec, continue}
use kubeception_operator.Platform.Interface.{Platform, IsLawful}
use kubeception_operator.Platform.Fetch.{Ending, done}
use kubeception_operator.Platform.Owned.{apply_owned, apply_owned-stored, apply_owned-others}
use kubeception_operator.Utils.{beside}
use kubeception_operator.LoadBalancer.{service_spec, mutate_service, publish, sync, reconcile}
use kubeception_operator.LoadBalancer.Publish.{
  published, publish-done, StoredOrKept, publish-StoredOrKept,
}
use kubeception_operator.LoadBalancer.Runs.{IsService, publish-others, reconcile-eq-sync}

module _ (P : Platform) (L : IsLawful P) (req : Key) (lb : Loadbalancer) (s : P.State) where
  open P use {State, Error, get, update_status}

  -- The write of the Service.
  abbrev pub service_write : Result (Fault Error) (Obj Kind.service) × State
  service_write =
      apply_owned P Kind.loadbalancer lb.meta Kind.service
        (fresh Kind.service req.namespace lb.spec.name) (mutate_service lb) s

  -- The run returns the error of that write, and has not touched the load balancer.
  abbrev pub Fails : Result (Fault Error) Ending × State → Type 0
  Fails x =
      (e : Fault Error) × (service_write.0 ≡ err e)
      × (x ≡ (err e, service_write.1))
      × (get Kind.loadbalancer req x.1 ≡ ok lb)

  -- The load balancer has the address, or the update of its status after the Service has failed and
  -- it is as it was.
  abbrev PublishedOrKept : List Ingress → State → Type 0
  PublishedOrKept l s' =
      (get Kind.loadbalancer req s' ≡ ok (published lb l))
      ⊎ ((e : Error) × ((update_status Kind.loadbalancer (published lb l) service_write.1).0
            ≡ err e)
          × (get Kind.loadbalancer req s' ≡ ok lb))

  -- It ends without an error and without a requeue. The Service is written, and the load balancer
  -- has its first address or is as it was.
  abbrev pub Finishes : Result (Fault Error) Ending × State → Type 0
  Finishes x =
      (base : Obj Kind.service) × IsService P L req lb s base
      × (x.0 ≡ ok done)
      × (get Kind.service (beside req lb.spec.name) x.1
          ≡ ok (record base { spec = service_spec lb }))
      × PublishedOrKept base.status.ingress x.1

  -- On any lawful platform, a run for a load balancer that exists ends in one of two ways. Either the
  -- write of its Service fails, and the run returns that error, with the load balancer as it was. Or
  -- the run returns no error and asks for no other one: the Service has the generated specification
  -- and the status that it had, and either the load balancer has the Service's first address in its
  -- status, if there is one, or the update of its status has failed and it is as it was. So an error
  -- of that update is neither returned nor requeued.
  pub load_balancer_ends :
      get Kind.loadbalancer req s ≡ ok lb → Fails (reconcile P req s) ⊎ Finishes (reconcile P req s)
  unfolding sync mutate_service
  load_balancer_ends found =
      subst (λ x. Fails x ⊎ Finishes x) (sym (reconcile-eq-sync P L req lb s found))
        (split service_write.0 refl)
    where
      k : Key
      k = lb.meta.key

      own : k ≡ req
      own = L.own_key Kind.loadbalancer req s lb found

      kept : get Kind.loadbalancer req service_write.1 ≡ ok lb
      kept =
          apply_owned-others P L Kind.loadbalancer lb.meta Kind.service
            (fresh Kind.service req.namespace lb.spec.name) (mutate_service lb) s Kind.loadbalancer
            req (λ e. cc (e.0))
          ∙ found

      after : Obj Kind.service → Exec State Error Ending
      after service = publish P lb service.status.ingress

      at_req :
          (l : List Ingress) {s' : State}
          → StoredOrKept P L lb l service_write.1 s'
          → PublishedOrKept l s'
      at_req l {s'} =
          subst
            (λ key.
              (get Kind.loadbalancer key s' ≡ ok (published lb l))
              ⊎ ((e : Error) × ((update_status Kind.loadbalancer (published lb l) service_write.1).0
                    ≡ err e)
                  × (get Kind.loadbalancer key s' ≡ ok lb)))
            own

      finished :
          (service base : Obj Kind.service)
          → IsService P L req lb s base
          → service ≡ record base { spec = service_spec lb }
          → get Kind.service (beside req lb.spec.name) service_write.1 ≡ ok service
          → Finishes (after service service_write.1)
      finished service base is_base e stored = (
        base,
        is_base,
        publish-done P lb service.status.ingress service_write.1,
        publish-others P L lb service.status.ingress service_write.1 Kind.service
              (beside req lb.spec.name) (λ d. cc (d.0))
            ∙ stored
            ∙ ap ok e,
        subst (λ l. PublishedOrKept l (after service service_write.1).1)
            (ap (λ (x : Obj Kind.service). x.status.ingress) e)
            (at_req service.status.ingress (
              publish-StoredOrKept P L lb service.status.ingress service_write.1
                (subst (λ key. get Kind.loadbalancer key service_write.1 ≡ ok lb) (sym own) kept))),
      )

      split :
          (r : Result (Fault Error) (Obj Kind.service))
          → service_write.0 ≡ r
          → Fails (sync P req lb s) ⊎ Finishes (sync P req lb s)
      split (err e) failed =
          let ended : sync P req lb s ≡ (err e, service_write.1) =
            ap (λ r. continue r after service_write.1) failed in
          inl (e, failed, ended, ap (λ x. get Kind.loadbalancer req x.1) ended ∙ kept)
      split (ok service) wrote =
          let (base, is_base, made_by, stored) =
            apply_owned-stored P L Kind.loadbalancer lb.meta Kind.service
              (fresh Kind.service req.namespace lb.spec.name) (mutate_service lb) s service wrote in
          inr (
            subst Finishes (sym (ap (λ r. continue r after service_write.1) wrote))
              (finished service base is_base (cc made_by) stored))
