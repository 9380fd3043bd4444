-- ===== src/Manager/Process.antt =====
-- When the process starts the manager.
use kubeception_operator.Base.{
  ◌≡◌, refl, sym, ap, ◌∙◌, ◌↔◌, String, Option, none, some, List, [], ◌∷◌, Result, ok, err,
}
use kubeception_operator.Manager.{Controller, controllers, reconciled, owns}
use kubeception_operator.Manager.Main.{
  Flags, options, Runtime, returned, Process, check, or_die, created, main,
}

-- The controllers' names in the log.
abbrev pub name_of : Controller → String
name_of Controller.control_plane = "ControlPlane"
name_of Controller.pki = "Pki"
name_of Controller.kube_controller_manager = "KubeControllerManager"
name_of Controller.kube_api_server = "KubeAPIServer"
name_of Controller.kube_scheduler = "KubeScheduler"
name_of Controller.loadbalancer = "Loadbalancer"

module _ (R : Runtime) where
  open R use {
    State, Error, Config, Manager, get_config_or_die, new_manager, complete, add_healthz_check,
    add_readyz_check, start,
  }

  -- Each controller in turn, up to the first one that cannot be set up.
  unfoldable pub set_up_all : List Controller → Manager → Process R → Process R
  set_up_all [] mgr next s = next s
  set_up_all (c ∷ cs) mgr next s =
      created R (name_of c) (complete mgr (reconciled c) (owns c) c s) λ _. set_up_all cs mgr next

  abbrev pub finish : Unit {0} → Process R
  finish _ s = (returned, s)

  abbrev pub serve_ready : Manager → Process R
  serve_ready mgr s = check R "problem running manager" none (start mgr s) finish

  abbrev pub serve_healthy : Manager → Process R
  serve_healthy mgr s =
      check R "unable to set up ready check" none (add_readyz_check mgr "readyz" s)
        λ _. serve_ready mgr

  abbrev pub serve : Manager → Process R
  serve mgr s =
      check R "unable to set up health check" none (add_healthz_check mgr "healthz" s)
        λ _. serve_healthy mgr

  abbrev pub manage : Manager → Process R
  manage mgr = set_up_all controllers mgr (serve mgr)

  abbrev pub configure : Flags → Config → Process R
  configure flags config s =
      check R "unable to start manager" none (new_manager config (options flags) s) manage

  abbrev pub specified : Flags → Process R
  specified flags s = or_die R (get_config_or_die s) (configure flags)

  -- The process is the loop over the list of controllers, each set up for the kind that it
  -- reconciles and the kinds that it owns, between the creation of the manager and the two checks.
  pub main-specified : (flags : Flags) (s : State) → main R flags s ≡ specified flags s
  unfolding main set_up_all reconciled owns
  main-specified flags s = refl

  -- The calls succeed one after the other, on the listed controllers.
  pub data AllUp (mgr : Manager) : List Controller → State → State → Type 0 where
    all_up : {s : State} → AllUp mgr [] s s
    next_up :
        {c : Controller} {cs : List Controller} {s s1 s2 : State}
        → complete mgr (reconciled c) (owns c) c s ≡ (ok tt, s1)
        → AllUp mgr cs s1 s2
        → AllUp mgr (c ∷ cs) s s2

  -- A whole life of the process in which nothing failed.
  pub record Served (flags : Flags) (s s' : State) : Type 0 where
    pub config : Config
    pub mgr : Manager
    pub s1 : State
    pub s2 : State
    pub s3 : State
    pub s4 : State
    pub s5 : State
    pub configured : get_config_or_die s ≡ (some config, s1)
    pub managed : new_manager config (options flags) s1 ≡ (ok mgr, s2)
    pub up : AllUp mgr controllers s2 s3
    pub healthy : add_healthz_check mgr "healthz" s3 ≡ (ok tt, s4)
    pub ready : add_readyz_check mgr "readyz" s4 ≡ (ok tt, s5)
    pub started : start mgr s5 ≡ (ok tt, s')

  -- A check that passes.
  check-returned :
      {A : Type 0} (message : String) (name : Option String) (r : Result Error A × State)
      (next : A → Process R) (s' : State)
      → check R message name r next ≡ (returned, s')
      → (a : A) × (s1 : State) × (r ≡ (ok a, s1)) × (next a s1 ≡ (returned, s'))
  check-returned message name (ok a, s1) next s' h = (a, s1, refl, h)
  check-returned message name (err e, s1) next s' h = cc h

  or_die-returned :
      (r : Option Config × State) (next : Config → Process R) (s' : State)
      → or_die R r next ≡ (returned, s')
      → (config : Config) × (s1 : State) × (r ≡ (some config, s1))
        × (next config s1 ≡ (returned, s'))
  or_die-returned (some config, s1) next s' h = (config, s1, refl, h)
  or_die-returned (none, s1) next s' h = cc h

  -- The loop goes on only after every controller is up.
  set_up_all-returned :
      (cs : List Controller) (mgr : Manager) (next : Process R) (s s' : State)
      → set_up_all cs mgr next s ≡ (returned, s')
      → (s1 : State) × AllUp mgr cs s s1 × (next s1 ≡ (returned, s'))
  unfolding set_up_all
  set_up_all-returned [] mgr next s s' h = (s, AllUp.all_up, h)
  set_up_all-returned (c ∷ cs) mgr next s s' h =
      let (done, s1, up, rest) = check-returned _ _ _ _ s' h in
      let (s2, all, goes_on) = set_up_all-returned cs mgr next s1 s' rest in
      (s2, AllUp.next_up up all, goes_on)

  set_up_all-up :
      (cs : List Controller) (mgr : Manager) (next : Process R) (s s1 : State)
      → AllUp mgr cs s s1
      → set_up_all cs mgr next s ≡ next s1
  unfolding set_up_all
  set_up_all-up [] mgr next s s1 AllUp.all_up = refl
  set_up_all-up (c ∷ cs) mgr next s s2 (AllUp.next_up {s1} up all) =
      rw up (set_up_all-up cs mgr next s1 s2 all)

  returned-Served :
      (flags : Flags) (s s' : State) → main R flags s ≡ (returned, s') → Served flags s s'
  returned-Served flags s s' h =
      let (config, s1, configured, h1) =
        or_die-returned (get_config_or_die s) (configure flags) s'
          (sym (main-specified flags s) ∙ h) in
      let (mgr, s2, managed, h2) =
        check-returned "unable to start manager" none (new_manager config (options flags) s1) manage
          s' h1 in
      let (s3, up, h3) = set_up_all-returned controllers mgr (serve mgr) s2 s' h2 in
      let (_, s4, healthy, h4) =
        check-returned "unable to set up health check" none (add_healthz_check mgr "healthz" s3)
          (λ _. serve_healthy mgr) s' h3 in
      let (_, s5, ready, h5) =
        check-returned "unable to set up ready check" none (add_readyz_check mgr "readyz" s4)
          (λ _. serve_ready mgr) s' h4 in
      let (_, s6, started, h6) =
        check-returned "problem running manager" none (start mgr s5) finish s' h5 in
      record {
        config = config;
        mgr = mgr;
        s1 = s1;
        s2 = s2;
        s3 = s3;
        s4 = s4;
        s5 = s5;
        configured = configured;
        managed = managed;
        up = up;
        healthy = healthy;
        ready = ready;
        started = started ∙ ap (λ x. (ok tt, x)) (ap (λ x. x.1) h6);
      }

  Served-returned :
      (flags : Flags) (s s' : State) → Served flags s s' → main R flags s ≡ (returned, s')
  Served-returned flags s s' v =
      main-specified flags s
      ∙ ap (λ r. or_die R r (configure flags)) v.configured
      ∙ ap (λ r. check R "unable to start manager" none r manage) v.managed
      ∙ set_up_all-up controllers v.mgr (serve v.mgr) v.s2 v.s3 v.up
      ∙ ap (λ r. check R "unable to set up health check" none r λ _. serve_healthy v.mgr) v.healthy
      ∙ ap (λ r. check R "unable to set up ready check" none r λ _. serve_ready v.mgr) v.ready
      ∙ ap (λ r. check R "problem running manager" none r finish) v.started

  -- The process ends with exit code 0 exactly if there is a configuration, the manager was created
  -- with the options of the flags, all six controllers were set up in the order of the list, both
  -- checks were added, and the manager was started and stopped without an error.
  pub main-returned :
      (flags : Flags) (s s' : State) → (main R flags s ≡ (returned, s')) ↔ Served flags s s'
  main-returned flags s s' = (returned-Served flags s s', Served-returned flags s s')
