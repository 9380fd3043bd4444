-- ===== src/ControlPlane/Runs.antt =====
-- Whole runs of the control plane's reconciler.
use kubeception_operator.Base.{◌≡◌, refl, sym, ap, ◌∙◌, true, Result, ok, err, Fault}
use kubeception_operator.Types.Meta.{Key, Object}
use kubeception_operator.Types.Crd.{ControlPlane}
use kubeception_operator.Types.Kinds.{Kind, Obj}
use kubeception_operator.Types.Kinds.Zero.{fresh}
use kubeception_operator.Platform.Exec.{Exec, ◌>>=◌}
use kubeception_operator.Platform.Interface.{Platform, IsLawful, IsHealthy}
use kubeception_operator.Platform.Fetch.{Ending, done, or_done}
use kubeception_operator.Platform.Yields.{Yields, Yields-pure, Yields-same, SameObjects}
use kubeception_operator.Platform.Healthy.{
  Succeeds, Succeeds-pure, Succeeds-bind, Succeeds-apply_owned,
}
use kubeception_operator.ControlPlane.{
  kube_api_server_spec, mutate_loadbalancer, mutate_pki, mutate_kube_controller_manager,
  mutate_kube_scheduler, apply, sync, reconcile,
}
use kubeception_operator.ControlPlane.Children.{
  IsSynced, sync-IsSynced, mutate_kube_api_server_lem, pod_labels,
}
use kubeception_operator.ControlPlane.Footprint.{reconcile_kept}

-- An object that has the specification already.
respec :
    {E S T : Type 0} (o : Object S T) {spec : S}
    → o.spec ≡ spec
    → ◌≡◌ {A = Result (Fault E) (Object S T)} (ok (record o { spec = spec })) (ok o)
respec o e = rw (← e)

module _ (P : Platform) (req : Key) where
  open P use {State, Error, get, is_not_found}

  reconcile-eq-sync :
      (cp : ControlPlane) (s : State)
      → get Kind.control_plane req s ≡ ok cp
      → reconcile P req s ≡ sync P req cp s
  unfolding reconcile
  reconcile-eq-sync cp s found = ap (λ r. or_done P r (λ cp. sync P req cp) s) found

  -- A control plane that is gone ends the run without an error, and nothing is written.
  pub reconcile_missing :
      (s : State) (e : Error)
      → get Kind.control_plane req s ≡ err e
      → is_not_found e ≡ true
      → reconcile P req s ≡ (ok done, s)
  unfolding reconcile
  reconcile_missing s e absent missing =
      ap (λ r. or_done P r (λ cp. sync P req cp) s) absent ∙ rw missing

module _ (P : Platform) (L : IsLawful P) (req : Key) where
  open P use {State, Error, get}

  -- A run that returns no error leaves every child as the control plane asks.
  pub reconcile-IsSynced :
      (cp : ControlPlane) (s : State)
      → get Kind.control_plane req s ≡ ok cp
      → (reconcile P req s).0 ≡ ok done
      → IsSynced P req cp s (reconcile P req s).1
  reconcile-IsSynced cp s found h =
      let e = reconcile-eq-sync P req cp s found in
      rw e (((sync-IsSynced P L req cp s).holds done (rw e at h)).1)

  -- Where the platform does not fail, a run on a control plane that exists returns no error.
  sync-Succeeds : IsHealthy P → (cp : ControlPlane) → Succeeds (sync P req cp)
  unfolding sync apply mutate_loadbalancer mutate_pki mutate_kube_controller_manager
      mutate_kube_scheduler
  sync-Succeeds H cp = Succeeds-bind _ _ (write _ _ λ b. (_, refl, refl)) λ lb.
      Succeeds-bind _ _ (write _ _ λ b. (_, refl, refl)) λ _.
        Succeeds-bind _ _ (write _ _ λ b. (_, mutate_kube_api_server_lem cp lb b, refl)) λ _.
          Succeeds-bind _ _ (write _ _ λ b. (_, refl, refl))
            λ _. Succeeds-bind _ _ (write _ _ λ b. (_, refl, refl)) λ _. Succeeds-pure done
    where
      write :
          (k : Kind) (f : Obj k → Result (Fault Error) (Obj k))
          → ((base : Obj k) → (m : Obj k) × (f base ≡ ok m) × (m.meta.key ≡ base.meta.key))
          → Succeeds (apply P cp req k f)
      write k f total =
          Succeeds-apply_owned P L H Kind.control_plane cp.meta k (fresh k req.namespace req.name) f
            total

  -- On a platform that does not fail, a run on a control plane that exists ends without an error and
  -- leaves every child as the control plane asks.
  pub reconcile_succeeds :
      IsHealthy P
      → (cp : ControlPlane) (s : State) → get Kind.control_plane req s ≡ ok cp
      → ((reconcile P req s).0 ≡ ok done) × IsSynced P req cp s (reconcile P req s).1
  reconcile_succeeds H cp s found =
      let (ending, e) = (sync-Succeeds H cp).result s in
      let (is_done, synced) = (sync-IsSynced P L req cp s).holds ending e in
      rw (reconcile-eq-sync P req cp s found) (rw is_done at e, synced)

  -- The writes of a run in a synced state ask for what is stored.
  sync_fixed :
      (cp : ControlPlane) (s0 s : State)
      → IsSynced P req cp s0 s
      → Yields (sync P req cp) s (λ _ s'. SameObjects P s s')
  unfolding sync apply mutate_loadbalancer mutate_pki mutate_kube_controller_manager
      mutate_kube_scheduler kube_api_server_spec
  sync_fixed cp s0 s y =
      write Kind.loadbalancer _ _ s y.lb y.lb_stored (respec y.lb y.lb_spec) λ s1 e1.
        write Kind.pki _ _ s1 y.pki (e1 Kind.pki req ∙ y.pki_stored) (respec y.pki ip_pki) λ s2 e2.
          write Kind.kube_api_server _ _ s2 y.kas
            (e2 Kind.kube_api_server req ∙ e1 Kind.kube_api_server req ∙ y.kas_stored)
            (mutate_kube_api_server_lem {E = Error} cp y.lb y.kas ∙ respec y.kas kas_again)
            λ s3 e3.
              write Kind.kube_controller_manager _ _ s3 y.kcm
                (e3 Kind.kube_controller_manager req
                  ∙ e2 Kind.kube_controller_manager req
                  ∙ e1 Kind.kube_controller_manager req
                  ∙ y.kcm_stored)
                (respec y.kcm y.kcm_spec)
                λ s4 e4.
                  write Kind.kube_scheduler _ _ s4 y.ks
                    (e4 Kind.kube_scheduler req
                      ∙ e3 Kind.kube_scheduler req
                      ∙ e2 Kind.kube_scheduler req
                      ∙ e1 Kind.kube_scheduler req
                      ∙ y.ks_stored)
                    (respec y.ks y.ks_spec)
                    λ s5 e5.
                      Yields-pure done s5
                        (λ l key. e5 l key ∙ e4 l key ∙ e3 l key ∙ e2 l key ∙ e1 l key)
    where
      write :
          {Q : Ending → State → Type 0} (k : Kind) (f : Obj k → Result (Fault Error) (Obj k))
          (next : Obj k → Exec State Error Ending) (t : State) (stored : Obj k)
          → get k req t ≡ ok stored
          → f stored ≡ ok stored
          → ((t1 : State) → SameObjects P t t1 → Yields (next stored) t1 Q)
          → Yields (apply P cp req k f >>= next) t Q
      write k f next t stored found fixed y =
          Yields-same P L Kind.control_plane cp.meta k (fresh k req.namespace req.name) f next t
            stored found fixed y

      ip_pki : y.pki.spec ≡ record cp.spec.pki { control_plane_ip = y.lb.status.ip }
      ip_pki = y.pki_spec ∙ ap (λ ip. record cp.spec.pki { control_plane_ip = ip }) (sym y.lb_ip)

      kas_again : y.kas.spec ≡ kube_api_server_spec cp y.lb (pod_labels cp y.lb.spec.selectors)
      kas_again = y.kas_spec ∙ rw (y.lb_spec, y.lb_ip)

  -- Two runs that return no error on an unchanged control plane: the second changes no object.
  pub reconcile_twice :
      (cp : ControlPlane) (s : State)
      → get Kind.control_plane req s ≡ ok cp
      → let s1 = (reconcile P req s).1 in
        (reconcile P req s).0 ≡ ok done
        → (reconcile P req s1).0 ≡ ok done
        → SameObjects P s1 (reconcile P req s1).1
  reconcile_twice cp s found first second =
      let s1 = (reconcile P req s).1 in
      let still : get Kind.control_plane req s1 ≡ ok cp =
        reconcile_kept P L req s Kind.control_plane req (λ c. c.0) ∙ found in
      let e = reconcile-eq-sync P req cp s1 still in
      rw e ((sync_fixed cp s s1 (reconcile-IsSynced cp s found first)).holds done (rw e at second))

  -- On a platform that does not fail, the second of two runs on a control plane that exists ends
  -- without an error and leaves every object as the first one did.
  pub reconcile_settles :
      IsHealthy P
      → (cp : ControlPlane) (s : State) → get Kind.control_plane req s ≡ ok cp
      → let s1 = (reconcile P req s).1 in
        ((reconcile P req s1).0 ≡ ok done) × SameObjects P s1 (reconcile P req s1).1
  reconcile_settles H cp s found =
      let s1 = (reconcile P req s).1 in
      let still : get Kind.control_plane req s1 ≡ ok cp =
        reconcile_kept P L req s Kind.control_plane req (λ c. c.0) ∙ found in
      let first = (reconcile_succeeds H cp s found).0 in
      let second = (reconcile_succeeds H cp s1 still).0 in
      (second, reconcile_twice cp s found first second)
