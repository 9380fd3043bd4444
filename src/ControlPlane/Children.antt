-- ===== src/ControlPlane/Children.antt =====
-- What a successful run leaves in the cluster: every child as the control plane asks.
use kubeception_operator.Base.{
  ◌≡◌, refl, ap, sym, ◌∙◌, String, Result, ok, err, Fault, [], ◌∷◌, some, arith, inl, inr,
}
use kubeception_operator.Base.Dict.{Dict, entries, made, insert_all, assign_all, assign_all-made}
use kubeception_operator.Types.Meta.{Key}
use kubeception_operator.Types.Crd.{
  ControlPlane, Loadbalancer, KubeApiServer, KubeControllerManager, KubeScheduler, Pki,
}
use kubeception_operator.Types.Kinds.{Kind, Obj}
use kubeception_operator.Types.Kinds.Zero.{fresh}
use kubeception_operator.Platform.Exec.{Exec, ◌>>=◌}
use kubeception_operator.Platform.Interface.{Platform, IsLawful, Differ}
use kubeception_operator.Platform.Fetch.{Ending, done}
use kubeception_operator.Platform.Yields.{Yields, Yields-pure, Yields-write}
use kubeception_operator.Platform.Owned.{apply_owned, controlled, IsBase}
use kubeception_operator.Utils.{coalesce_string}
use kubeception_operator.ControlPlane.{
  allocated, with_labels, kube_api_server_spec, mutate_loadbalancer, mutate_pki,
  mutate_kube_api_server, mutate_kube_controller_manager, mutate_kube_scheduler, apply, sync,
}

-- The labels of the API server's pods: the control plane's, with the selectors over them.
unfoldable pub pod_labels : ControlPlane → Dict String → Dict String
pod_labels cp selectors =
    made (insert_all (entries selectors) (entries cp.spec.kube_api_server.deployment.labels))

-- The map is never nil when the labels are written, so the loop runs to its end.
assign_all-allocated :
    (source : Dict String) (target : Dict String)
    → assign_all (entries source) (allocated target)
      ≡ some (made (insert_all (entries source) (entries target)))
unfolding allocated
assign_all-allocated source Dict.nil = assign_all-made (entries source) []
assign_all-allocated source (made l) = assign_all-made (entries source) l

-- The API server's MutateFn neither fails nor panics, on any control plane and load balancer.
pub mutate_kube_api_server_lem :
    {E : Type 0} (cp : ControlPlane) (lb : Loadbalancer) (kas : KubeApiServer)
    → mutate_kube_api_server {E = E} cp lb kas
      ≡ ok (record kas { spec = kube_api_server_spec cp lb (pod_labels cp lb.spec.selectors) })
unfolding mutate_kube_api_server pod_labels
mutate_kube_api_server_lem cp lb kas =
    ap (with_labels cp lb kas)
      (assign_all-allocated lb.spec.selectors cp.spec.kube_api_server.deployment.labels)

-- The address of a load balancer that may be missing.
abbrev pub address : {E : Type 0} → Result E Loadbalancer → String
address (ok lb) = lb.status.ip
address (err _) = ""

module _ (P : Platform) (req : Key) (cp : ControlPlane) (before after : P.State) where
  open P use {get}

  abbrev ip : String
  ip = address (get Kind.loadbalancer req before)

  -- Every child is stored under the control plane's own name, with the specification that the
  -- control plane gives it, the address that the load balancer had before the run, and the version
  -- that it falls back to.
  pub record IsSynced : Type 0 where
    pub lb : Loadbalancer
    pub lb_stored : get Kind.loadbalancer req after ≡ ok lb
    pub lb_spec : lb.spec ≡ cp.spec.loadbalancer
    pub lb_ip : lb.status.ip ≡ ip
    pub pki : Pki
    pub pki_stored : get Kind.pki req after ≡ ok pki
    pub pki_spec : pki.spec ≡ record cp.spec.pki { control_plane_ip = ip }
    pub kas : KubeApiServer
    pub kas_stored : get Kind.kube_api_server req after ≡ ok kas
    pub kas_spec : kas.spec ≡ record cp.spec.kube_api_server {
      deployment = record cp.spec.kube_api_server.deployment {
        labels = pod_labels cp cp.spec.loadbalancer.selectors;
      };
      options = record cp.spec.kube_api_server.options { advertise_address = ip };
      version = coalesce_string (cp.spec.kube_api_server.version ∷ cp.spec.version ∷ []);
    }
    pub kcm : KubeControllerManager
    pub kcm_stored : get Kind.kube_controller_manager req after ≡ ok kcm
    pub kcm_spec : kcm.spec ≡ record cp.spec.kube_controller_manager {
      version = coalesce_string (cp.spec.kube_controller_manager.version ∷ cp.spec.version ∷ []);
    }
    pub ks : KubeScheduler
    pub ks_stored : get Kind.kube_scheduler req after ≡ ok ks
    pub ks_spec : ks.spec ≡ record cp.spec.kube_scheduler {
      version = coalesce_string (cp.spec.kube_scheduler.version ∷ cp.spec.version ∷ []);
    }

-- The API server that the MutateFn makes.
kas_spec_lem :
    {E : Type 0} (cp : ControlPlane) (lb : Loadbalancer) (ip : String) (base kas : KubeApiServer)
    → lb.spec ≡ cp.spec.loadbalancer
    → lb.status.ip ≡ ip
    → mutate_kube_api_server {E = E} cp lb base ≡ ok kas
    → kas.spec ≡ record cp.spec.kube_api_server {
      deployment = record cp.spec.kube_api_server.deployment {
        labels = pod_labels cp cp.spec.loadbalancer.selectors;
      };
      options = record cp.spec.kube_api_server.options { advertise_address = ip };
      version = coalesce_string (cp.spec.kube_api_server.version ∷ cp.spec.version ∷ []);
    }
unfolding kube_api_server_spec
kas_spec_lem {E} cp lb ip base kas same at_ip made_by =
    let made : kas
        ≡ record base { spec = kube_api_server_spec cp lb (pod_labels cp lb.spec.selectors) } =
      cc (mutate_kube_api_server_lem {E = E} cp lb base, made_by) in
    ap (λ (x : KubeApiServer). x.spec) made ∙ rw (same, at_ip)

module _ (P : Platform) (L : IsLawful P) (req : Key) (cp : ControlPlane) where
  open P use {State, Error, get}

  -- The status of the load balancer outlives the write.
  address_lem :
      (s : State) (base lb : Loadbalancer)
      → IsBase P Kind.loadbalancer
          (controlled Kind.control_plane cp.meta Kind.loadbalancer
            (fresh Kind.loadbalancer req.namespace req.name))
          s
          base
      → mutate_loadbalancer {E = Error} cp base ≡ ok lb
      → lb.status.ip ≡ address (get Kind.loadbalancer req s)
  unfolding mutate_loadbalancer
  address_lem s base lb (inl found) m =
      let kept : lb.status.ip ≡ base.status.ip = ground (arith, m) in kept ∙ sym (ap address found)
  address_lem s base lb (inr (fresh_one, (e, absent, _))) m =
      let kept : lb.status.ip ≡ base.status.ip = ground (arith, m) in
      let blank : base.status.ip ≡ "" = ap (λ (x : Loadbalancer). x.status.ip) fresh_one in
      kept ∙ blank ∙ sym (ap address absent)

  -- A run of the writes that returns no error leaves every child as the control plane asks.
  pub sync-IsSynced :
      (s : State) → Yields (sync P req cp) s (λ a s'. (a ≡ done) × IsSynced P req cp s s')
  unfolding sync apply mutate_loadbalancer mutate_pki mutate_kube_controller_manager
      mutate_kube_scheduler
  sync-IsSynced s = write Kind.loadbalancer s λ lb b1 s1 i1 m1 g1 k1.
      write Kind.pki s1 λ pki b2 s2 i2 m2 g2 k2.
        write Kind.kube_api_server s2 λ kas b3 s3 i3 m3 g3 k3.
          write Kind.kube_controller_manager s3 λ kcm b4 s4 i4 m4 g4 k4.
            write Kind.kube_scheduler s4 λ ks b5 s5 i5 m5 g5 k5.
              let same : lb.spec ≡ cp.spec.loadbalancer = ground (arith, m1) in
              let at_ip : lb.status.ip ≡ address (get Kind.loadbalancer req s) =
                address_lem s b1 lb i1 m1 in
              Yields-pure done s5 (
                refl,
                record {
                  lb = lb;
                  lb_stored =
                      k5 Kind.loadbalancer req (λ e. cc (e.0))
                      ∙ k4 Kind.loadbalancer req (λ e. cc (e.0))
                      ∙ k3 Kind.loadbalancer req (λ e. cc (e.0))
                      ∙ k2 Kind.loadbalancer req (λ e. cc (e.0))
                      ∙ g1;
                  lb_spec = same;
                  lb_ip = at_ip;
                  pki = pki;
                  pki_stored =
                      k5 Kind.pki req (λ e. cc (e.0))
                      ∙ k4 Kind.pki req (λ e. cc (e.0))
                      ∙ k3 Kind.pki req (λ e. cc (e.0))
                      ∙ g2;
                  pki_spec = rw (← at_ip) (ground (arith, m2));
                  kas = kas;
                  kas_stored =
                      k5 Kind.kube_api_server req (λ e. cc (e.0))
                      ∙ k4 Kind.kube_api_server req (λ e. cc (e.0))
                      ∙ g3;
                  kas_spec = kas_spec_lem cp lb _ b3 kas same at_ip m3;
                  kcm = kcm;
                  kcm_stored = k5 Kind.kube_controller_manager req (λ e. cc (e.0)) ∙ g4;
                  kcm_spec = ground (arith, m4);
                  ks = ks;
                  ks_stored = g5;
                  ks_spec = ground (arith, m5);
                },
              )
    where
      write :
          {Q : Ending → State → Type 0} (k : Kind) {f : Obj k → Result (Fault Error) (Obj k)}
          {next : Obj k → Exec State Error Ending} (s : State)
          → ((o' base : Obj k) (s1 : State)
              → IsBase P k
                  (controlled Kind.control_plane cp.meta k (fresh k req.namespace req.name))
                  s
                  base
              → f base ≡ ok o'
              → get k req s1 ≡ ok o'
              → ((l : Kind) (key : Key) → Differ k req l key → get l key s1 ≡ get l key s)
              → Yields (next o') s1 Q)
          → Yields
              (apply_owned P Kind.control_plane cp.meta k (fresh k req.namespace req.name) f
                >>= next)
              s
              Q
      write k {f} {next} s y =
          Yields-write P L Kind.control_plane cp.meta k (fresh k req.namespace req.name) f next s y
