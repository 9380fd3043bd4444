-- ===== src/Cluster/Grown.antt =====
-- The controllers that write no Deployment.
use kubeception_operator.Base.{
  String, ◌==◌, ◌≡◌, ◌≢◌, refl, sym, subst, ok, err, inl, inr, Result, Fault, List, [], ◌∷◌,
  Bool-cases,
}
use kubeception_operator.Types.Meta.{Key}
use kubeception_operator.Types.Crd.{ControlPlane, Loadbalancer, Pki}
use kubeception_operator.Types.Core.{Ingress}
use kubeception_operator.Types.Kinds.{Kind, Obj}
use kubeception_operator.Types.Kinds.Zero.{fresh}
use kubeception_operator.Platform.Interface.{Platform, IsLawful}
use kubeception_operator.Platform.Fetch.{done, requeue_after}
use kubeception_operator.Utils.{beside}
use kubeception_operator.ControlPlane
use kubeception_operator.LoadBalancer
use kubeception_operator.LoadBalancer.{publish, mutate_service}
use kubeception_operator.Cluster.{Grows}
use kubeception_operator.LoadBalancer.Publish.{published, publish-cons}
use kubeception_operator.Pki
use kubeception_operator.Pki.{ignoring, sync_components, sync_admin}
use kubeception_operator.Cluster.Growth.{
  Left, Exists-after, Grown, Grown-pure, Grown-bind, Grown-or_done, Grown-or_requeue,
  Grown-apply_owned, apply_owned-Grows,
}

module _ (P : Platform) (L : IsLawful P) (req : Key) where
  open P use {State, Error, get, update_status}

  -- The control plane's reconciler.
  child-Grown :
      (cp : ControlPlane) (k : Kind) (f : Obj k → Result (Fault Error) (Obj k))
      → k ≢ Kind.deployment
      → Grown P (ControlPlane.apply P cp req k f)
  unfolding ControlPlane.apply
  child-Grown cp k f n =
      Grown-apply_owned P L Kind.control_plane cp.meta k (fresh k req.namespace req.name) f n

  pub control_plane-Grown : Grown P (ControlPlane.reconcile P req)
  unfolding ControlPlane.reconcile ControlPlane.sync
  control_plane-Grown = Grown-or_done (get Kind.control_plane req) _ λ cp.
      Grown-bind _ _ (child-Grown cp Kind.loadbalancer _ (λ e. cc e)) λ _.
        Grown-bind _ _ (child-Grown cp Kind.pki _ (λ e. cc e)) λ _.
          Grown-bind _ _ (child-Grown cp Kind.kube_api_server _ (λ e. cc e)) λ _.
            Grown-bind _ _ (child-Grown cp Kind.kube_controller_manager _ (λ e. cc e)) λ _.
              Grown-bind _ _ (child-Grown cp Kind.kube_scheduler _ (λ e. cc e)) λ _. Grown-pure done

  -- The load balancer's reconciler.
  status-Left :
      (o : Loadbalancer) (s : State) (r : Result Error (Unit {0}))
      → (update_status Kind.loadbalancer o s).0 ≡ r
      → Left P Kind.loadbalancer o.meta.key (λ _. Unit) s (update_status Kind.loadbalancer o s).1
  status-Left o s (ok tt) e =
      let (stored, _, at) = L.status_written Kind.loadbalancer o s e in inr (_, tt, at)
  status-Left o s (err x) e = elim (L.status_failed Kind.loadbalancer o s x e) [
    | inl same ↦ inl same
    | inr (stored, _, at) ↦ inr (_, tt, at)
  ]

  publish-Grown : (lb : Loadbalancer) (l : List Ingress) → Grown P (publish P lb l)
  unfolding publish
  publish-Grown lb [] = Grown-pure done
  publish-Grown lb (i ∷ l) = record {
    grows = λ s.
        let o = published lb (i ∷ l) in
        let others = L.status_others Kind.loadbalancer o s in
        subst (λ x. Grows P s x.1) (sym (publish-cons P lb i l s))
          (record {
            exists =
                Exists-after P Kind.loadbalancer o.meta.key (λ _. Unit) s _ (status-Left o s _ refl)
                  others;
            deployments = λ key. others Kind.deployment key (λ e. cc (e.0));
          });
  }

  pub load_balancer-Grown : Grown P (LoadBalancer.reconcile P req)
  unfolding LoadBalancer.reconcile LoadBalancer.sync
  load_balancer-Grown = Grown-or_done (get Kind.loadbalancer req) _ λ lb.
      Grown-bind _ _
        (Grown-apply_owned P L Kind.loadbalancer lb.meta Kind.service
          (fresh Kind.service req.namespace lb.spec.name) (mutate_service lb) (λ e. cc e))
        λ service. publish-Grown lb service.status.ingress

  -- The PKI's reconciler.
  keep-Grown :
      (pki : Pki) (k : Kind) (name : String) (f : Obj k → Result (Fault Error) (Obj k))
      → k ≢ Kind.deployment
      → Grown P (Pki.apply P req pki k name f)
  unfolding Pki.apply ignoring
  keep-Grown pki k name f n = record {
    grows = λ s. apply_owned-Grows P L Kind.pki pki.meta k (fresh k req.namespace name) f s n;
  }

  certificate-Grown :
      (pki : Pki) (name : String)
      (f : Obj Kind.certificate → Result (Fault Error) (Obj Kind.certificate))
      → Grown P (Pki.apply P req pki Kind.certificate name f)
  certificate-Grown pki name f = keep-Grown pki Kind.certificate name f (λ e. cc e)

  sync_components-Grown : (pki : Pki) → Grown P (sync_components P req pki)
  unfolding sync_components
  sync_components-Grown pki = Grown-bind _ _ (certificate-Grown pki _ _) λ _.
      Grown-bind _ _ (certificate-Grown pki _ _) λ _.
        Grown-bind _ _ (certificate-Grown pki _ _) λ _.
          Grown-bind _ _ (certificate-Grown pki _ _)
            λ _. Grown-bind _ _ (certificate-Grown pki _ _) λ _. Grown-pure done

  sync_admin-Grown : (pki : Pki) (tls : Obj Kind.secret) → Grown P (sync_admin P req pki tls)
  unfolding sync_admin
  sync_admin-Grown pki tls = Grown-bind _ _ (keep-Grown pki Kind.secret _ _ (λ e. cc e)) λ _.
      elim (Bool-cases (pki.spec.control_plane_ip == "")) [
        | inl empty ↦ rw empty (Grown-pure (requeue_after 3))
        | inr filled ↦ rw filled (sync_components-Grown pki)
      ]

  pub pki-Grown : Grown P (Pki.reconcile P req)
  unfolding Pki.reconcile Pki.sync
  pki-Grown = Grown-or_done (get Kind.pki req) _ λ pki.
      Grown-bind _ _ (keep-Grown pki Kind.issuer _ _ (λ e. cc e)) λ _.
        Grown-bind _ _ (certificate-Grown pki _ _) λ _.
          Grown-bind _ _ (keep-Grown pki Kind.issuer _ _ (λ e. cc e)) λ _.
            Grown-bind _ _ (certificate-Grown pki _ _) λ _.
              Grown-or_requeue (get Kind.secret (beside req pki.spec.admin.name)) _
                (sync_admin-Grown pki)
