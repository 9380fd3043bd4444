-- ===== src/LoadBalancer/Plan.antt =====
-- What the load balancer's reconciler promises, as a change of a table of objects.
use kubeception_operator.Base.{◌≡◌, refl, sym, ap, subst, ◌∙◌, ok, List, [], ◌∷◌}
use kubeception_operator.Types.Meta.{Key}
use kubeception_operator.Types.Crd.{Loadbalancer}
use kubeception_operator.Types.Core.{Ingress}
use kubeception_operator.Types.Kinds.{Kind, Obj}
use kubeception_operator.Types.Kinds.Zero.{fresh}
use kubeception_operator.Platform.Exec.{continue}
use kubeception_operator.Platform.Interface.{Platform, IsLawful, IsHealthy}
use kubeception_operator.Platform.Owned.{controlled, apply_owned, apply_owned-others}
use kubeception_operator.Platform.Fetch.{done}
use kubeception_operator.Platform.View.{
  Write, written, write, execute, Plan, on_object, view, Implements, view-update,
  Implements-with_object, apply_owned-write,
}
use kubeception_operator.LoadBalancer.Publish.{publish-cons, publish-done}
use kubeception_operator.LoadBalancer.{service_spec, mutate_service, publish, sync, reconcile}

module _ (req : Key) (lb : Loadbalancer) where
  abbrev pub service_write : Write
  service_write = record {
    kind = Kind.service;
    initial =
        controlled Kind.loadbalancer lb.meta Kind.service
          (fresh Kind.service req.namespace lb.spec.name);
    change = λ o. record o { spec = service_spec lb };
  }

  abbrev pub status_write : Ingress → Write
  status_write ingress = record {
    kind = Kind.loadbalancer;
    initial = lb;
    change = λ o. record o { status = record { ip = ingress.ip } };
  }

  -- The first address of the Service becomes the load balancer's.
  abbrev pub status_writes : List Ingress → List Write
  status_writes [] = []
  status_writes (ingress ∷ _) = status_write ingress ∷ []

-- The Service is kept, and the load balancer's status gets its first address, if it has one.
unfoldable pub plan : Key → Plan
unfolding service_spec
plan req t =
    on_object (t Kind.loadbalancer req)
      (λ lb t. (
        done,
        execute
            (service_write req lb
              ∷ status_writes req lb (written (service_write req lb) t).status.ingress)
            t,
      ))
      t

module _ (P : Platform) (L : IsLawful P) (H : IsHealthy P) (req : Key) (lb : Loadbalancer) where
  open P use {State, Error, get, update_status}

  publish-Implements :
      (l : List Ingress) (s : State)
      → get Kind.loadbalancer lb.meta.key s ≡ ok lb
      → Implements P (publish P lb l s) (done, execute (status_writes req lb l) (view P s))
  unfolding publish execute write
  publish-Implements [] s found = record { returns = refl; stores = refl }
  publish-Implements (i ∷ l) s found =
      let o = record lb { status = record { ip = i.ip } } in
      let (stored, stored_at, after) =
        L.status_written Kind.loadbalancer o s (H.status_writes Kind.loadbalancer o lb s found) in
      let same : stored ≡ lb = cc (stored_at, found) in
      record {
        returns = publish-done P lb (i ∷ l) s;
        stores =
            ap (λ x. view P x.1) (publish-cons P lb i l s)
            ∙ view-update P Kind.loadbalancer lb.meta.key o s _ (after ∙ rw same refl)
                (L.status_others Kind.loadbalancer o s)
            ∙ rw found refl;
      }

  sync-Implements :
      (s : State)
      → get Kind.loadbalancer req s ≡ ok lb
      → Implements P (sync P req lb s) (
        done,
        execute
            (service_write req lb
              ∷ status_writes req lb (written (service_write req lb) (view P s)).status.ingress)
            (view P s),
      )
  unfolding sync execute mutate_service
  sync-Implements s found =
      let o = fresh Kind.service req.namespace lb.spec.name in
      let (returns, leaves) =
        apply_owned-write P L H Kind.loadbalancer lb.meta Kind.service o (mutate_service lb)
          (service_write req lb).change (λ _. refl) (λ _. refl) s in
      let s1 = (apply_owned P Kind.loadbalancer lb.meta Kind.service o (mutate_service lb) s).1 in
      let service = written (service_write req lb) (view P s) in
      let still : get Kind.loadbalancer lb.meta.key s1 ≡ ok lb =
        apply_owned-others P L Kind.loadbalancer lb.meta Kind.service o (mutate_service lb) s
          Kind.loadbalancer lb.meta.key (λ e. cc (e.0))
        ∙ (ap (λ key. get Kind.loadbalancer key s) (L.own_key Kind.loadbalancer req s lb found)
            ∙ found) in
      subst
        (λ r.
          Implements P (continue r (λ (x : Obj Kind.service). publish P lb x.status.ingress) s1) (
            done,
            execute (status_writes req lb service.status.ingress)
                (write (service_write req lb) (view P s)),
          ))
        (sym returns)
        (subst
          (λ t.
            Implements P (publish P lb service.status.ingress s1)
              (done, execute (status_writes req lb service.status.ingress) t))
          leaves (publish-Implements service.status.ingress s1 still))

module _ (P : Platform) (L : IsLawful P) (H : IsHealthy P) (req : Key) where
  -- The reconciler implements the plan, whatever the state.
  pub reconcile-Implements : (s : P.State) → Implements P (reconcile P req s) (plan req (view P s))
  unfolding reconcile plan
  reconcile-Implements s =
      Implements-with_object P L H _ req _ s λ lb found. sync-Implements P L H req lb s found
