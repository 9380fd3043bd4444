-- ===== src/LoadBalancer/Settles.antt =====
-- A second run of the load balancer's controller.
use kubeception_operator.Base.{◌≡◌, refl, sym, Option, none, some, ap, List, [], ◌∷◌, ◌∙◌}
use kubeception_operator.Types.Meta.{Key}
use kubeception_operator.Types.Core.{Ingress}
use kubeception_operator.Types.Crd.{Loadbalancer}
use kubeception_operator.Types.Kinds.{Kind, Obj}
use kubeception_operator.Platform.Memory.{Table, update_self}
use kubeception_operator.Platform.Fetch.{done}
use kubeception_operator.Platform.View.{Plan, Write, written, write, or_initial, on_object, execute}
use kubeception_operator.Platform.Settled.{
  Repeats, AllShown, execute-AllShown, execute_shown, execute-others,
}
use kubeception_operator.LoadBalancer.{service_spec}
use kubeception_operator.LoadBalancer.Plan.{plan, service_write, status_write, status_writes}

-- The load balancer is stored under its own name.
abbrev pub IsOwn : Key → Table → Type 0
IsOwn req t = (lb : Loadbalancer) → t Kind.loadbalancer req ≡ some lb → lb.meta.key ≡ req

module _ (req : Key) where
  abbrev publish : Loadbalancer → Plan
  publish lb t = (
    done,
    execute
        (service_write req lb
          ∷ status_writes req lb (written (service_write req lb) t).status.ingress)
        t,
  )

  module _ (lb : Loadbalancer) (t : Table) where
    abbrev w : Write
    w = service_write req lb

    abbrev writes : List Ingress → List Write
    writes l = w ∷ status_writes req lb l

    writes-others :
        (l : List Ingress)
        → execute (status_writes req lb l) (write w t) Kind.service w.initial.meta.key
          ≡ write w t Kind.service w.initial.meta.key
    writes-others [] = execute-others [] (write w t) Kind.service w.initial.meta.key tt
    writes-others (i ∷ r) =
        execute-others (status_write req lb i ∷ []) (write w t) Kind.service w.initial.meta.key
          ((λ h. cc (h.0)), tt)

    -- The Service that is written again is the same.
    service_twice : (l : List Ingress) → written w (execute (writes l) t) ≡ written w t
    unfolding execute write
    service_twice l =
        ap (λ r. w.change (or_initial w.initial r))
          (writes-others l ∙ update_self Kind.service w.initial.meta.key (written w t) t)

    writes-AllShown : (l : List Ingress) → AllShown (execute (writes l) t) (writes l)
    writes-AllShown [] = execute-AllShown (writes []) t (tt, tt) ((λ o. refl), tt)
    writes-AllShown (i ∷ r) =
        execute-AllShown (writes (i ∷ r)) t (((λ h. cc (h.0)), tt), (tt, tt))
          ((λ o. refl), ((λ o. refl), tt))

    -- The load balancer with the address in its status.
    abbrev with_address : List Ingress → Loadbalancer
    with_address [] = lb
    with_address (i ∷ _) = record lb { status = record { ip = i.ip } }

    module _ (own : lb.meta.key ≡ req) (found : t Kind.loadbalancer req ≡ some lb) where
      stored_after :
          (l : List Ingress) → execute (writes l) t Kind.loadbalancer req ≡ some (with_address l)
      unfolding execute write
      stored_after [] =
          execute-others (w ∷ []) t Kind.loadbalancer req ((λ h. cc (h.0)), tt) ∙ found
      stored_after (i ∷ r) =
          let before : write w t Kind.loadbalancer lb.meta.key ≡ some lb =
            execute-others (w ∷ []) t Kind.loadbalancer lb.meta.key ((λ h. cc (h.0)), tt)
            ∙ ap (t Kind.loadbalancer) own
            ∙ found in
          ap (execute (writes (i ∷ r)) t Kind.loadbalancer) (sym own)
          ∙ update_self Kind.loadbalancer lb.meta.key (written (status_write req lb i) (write w t))
              (write w t)
          ∙ ap (λ x. some ((status_write req lb i).change (or_initial lb x))) before

      -- Published addresses are published again.
      again :
          (l : List Ingress)
          → (written w t).status.ingress ≡ l
          → publish (with_address l) (execute (writes l) t) ≡ (done, execute (writes l) t)
      unfolding service_spec
      again [] addresses =
          ap (λ l. (done, execute (writes l) (execute (writes []) t)))
            (ap (λ (o : Obj Kind.service). o.status.ingress) (service_twice []) ∙ addresses)
          ∙ ap (λ t. (done, t)) (execute_shown (writes []) _ (writes-AllShown []))
      again (i ∷ r) addresses =
          let lb1 = with_address (i ∷ r) in
          ap (λ l. (done, execute (w ∷ status_writes req lb1 l) (execute (writes (i ∷ r)) t)))
            (ap (λ (o : Obj Kind.service). o.status.ingress) (service_twice (i ∷ r)) ∙ addresses)
          ∙ ap (λ t. (done, t))
              (execute_shown (w ∷ status_write req lb1 i ∷ []) _ (writes-AllShown (i ∷ r)))

      publish-Repeats :
          on_object ((publish lb t).1 Kind.loadbalancer req) publish (publish lb t).1 ≡ publish lb t
      publish-Repeats =
          let l = (written w t).status.ingress in
          ap (λ r. on_object r publish (execute (writes l) t)) (stored_after l) ∙ again l refl

  pub plan-Repeats : (t : Table) → IsOwn req t → Repeats (plan req) t
  unfolding plan service_spec
  plan-Repeats t own = split (t Kind.loadbalancer req) refl
    where
      split :
          (r : Option Loadbalancer)
          → t Kind.loadbalancer req ≡ r
          → on_object
              ((on_object r publish t).1 Kind.loadbalancer req)
              publish
              (on_object r publish t).1
            ≡ on_object r publish t
      split none absent = ap (λ r. on_object r publish t) absent
      split (some lb) found = publish-Repeats lb t (own lb found) found
