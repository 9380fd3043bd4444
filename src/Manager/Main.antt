-- ===== src/Manager/Main.antt =====
-- cmd/main.go: the process, over controller-runtime's manager, and the `SetupWithManager` methods
-- that it calls.
use kubeception_operator.Base.{
  ℕ, String, Bool, false, Option, none, some, List, [], ◌∷◌, Result, ok, err,
}
use kubeception_operator.Types.Kinds.{Kind}
use kubeception_operator.Manager.{Controller}

-- What the command line gives; a flag that is absent has its default.
pub record Flags : Type 0 where
  pub metrics_bind_address : Option String
  pub health_probe_bind_address : Option String
  pub leader_elect : Option Bool

abbrev pub default : {A : Type 0} → A → Option A → A
default value none = value
default value (some given) = given

-- `ctrl.Options`
pub record Options : Type 0 where
  pub metrics_bind_address : String
  pub port : ℕ
  pub health_probe_bind_address : String
  pub leader_election : Bool
  pub leader_election_id : String

unfoldable pub options : Flags → Options
options flags = record {
  metrics_bind_address = default ":8080" flags.metrics_bind_address;
  port = 9443;
  health_probe_bind_address = default ":8081" flags.health_probe_bind_address;
  leader_election = default false flags.leader_elect;
  leader_election_id = "c129eb20.kubeception.ulfo.fr";
}

-- controller-runtime.
pub record Runtime : Type 1 where
  pub State : Type 0
  pub Error : Type 0
  pub Config : Type 0
  pub Manager : Type 0
  -- `none` if the process has ended in the call.
  pub get_config_or_die : State → Option Config × State
  pub new_manager : Config → Options → State → Result Error Manager × State
  -- `NewControllerManagedBy(mgr).For(kind).Owns(...).Complete(r)`
  pub complete : Manager → Kind → List Kind → Controller → State → Result Error Unit × State
  -- `AddHealthzCheck(name, healthz.Ping)` and `AddReadyzCheck(name, healthz.Ping)`
  pub add_healthz_check : Manager → String → State → Result Error Unit × State
  pub add_readyz_check : Manager → String → State → Result Error Unit × State
  -- Returns when a signal has stopped the manager, or with an error.
  pub start : Manager → State → Result Error Unit × State

module _ (R : Runtime) where
  open R use {
    State, Error, Config, Manager, get_config_or_die, new_manager, complete, add_healthz_check,
    add_readyz_check, start,
  }

  -- How the process ends: `main` returns, or it exits with code 1, after a log entry that names the
  -- controller where there is one.
  pub data Exit : Type 0 where
    returned : Exit
    died : Exit
    exit_1 : Error → String → Option String → Exit

  abbrev pub Process : Type 0
  Process = State → Exit × State

  -- `if err != nil { setupLog.Error(err, message, ...); os.Exit(1) }`
  abbrev pub check :
      {A : Type 0} → String → Option String → Result Error A × State → (A → Process) → Exit × State
  check message name (ok a, s) next = next a s
  check message name (err e, s) next = (exit_1 e message name, s)

  abbrev pub or_die : Option Config × State → (Config → Process) → Exit × State
  or_die (none, s) next = (died, s)
  or_die (some config, s) next = next config s

  abbrev pub SetUp : Type 0
  SetUp = Manager → State → Result Error Unit × State

  abbrev pub set_up_control_plane : SetUp
  set_up_control_plane mgr =
      complete mgr Kind.control_plane
        (Kind.pki ∷ Kind.kube_api_server ∷ Kind.kube_controller_manager ∷ Kind.loadbalancer ∷ [])
        Controller.control_plane

  abbrev pub set_up_pki : SetUp
  set_up_pki mgr =
      complete mgr Kind.pki (Kind.certificate ∷ Kind.issuer ∷ Kind.secret ∷ []) Controller.pki

  abbrev pub set_up_kube_controller_manager : SetUp
  set_up_kube_controller_manager mgr =
      complete mgr Kind.kube_controller_manager (Kind.deployment ∷ Kind.secret ∷ [])
        Controller.kube_controller_manager

  abbrev pub set_up_kube_api_server : SetUp
  set_up_kube_api_server mgr =
      complete mgr Kind.kube_api_server (Kind.deployment ∷ Kind.config_map ∷ [])
        Controller.kube_api_server

  abbrev pub set_up_kube_scheduler : SetUp
  set_up_kube_scheduler mgr =
      complete mgr Kind.kube_scheduler (Kind.secret ∷ Kind.deployment ∷ [])
        Controller.kube_scheduler

  abbrev pub set_up_loadbalancer : SetUp
  set_up_loadbalancer mgr =
      complete mgr Kind.loadbalancer (Kind.service ∷ []) Controller.loadbalancer

  abbrev pub created :
      String → Result Error (Unit {0}) × State → (Unit {0} → Process) → Exit × State
  created name = check "unable to create controller" (some name)

  unfoldable pub main : Flags → Process
  main flags s0 = or_die (get_config_or_die s0) λ config s.
      check "unable to start manager" none (new_manager config (options flags) s) λ mgr s.
        created "ControlPlane" (set_up_control_plane mgr s) λ _ s.
          created "Pki" (set_up_pki mgr s) λ _ s.
            created "KubeControllerManager" (set_up_kube_controller_manager mgr s) λ _ s.
              created "KubeAPIServer" (set_up_kube_api_server mgr s) λ _ s.
                created "KubeScheduler" (set_up_kube_scheduler mgr s) λ _ s.
                  created "Loadbalancer" (set_up_loadbalancer mgr s) λ _ s.
                    check "unable to set up health check" none (add_healthz_check mgr "healthz" s)
                      λ _ s.
                        check "unable to set up ready check" none (add_readyz_check mgr "readyz" s)
                          λ _ s.
                            check "problem running manager" none (start mgr s) λ _ s. (returned, s)
