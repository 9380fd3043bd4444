-- ===== src/Examples/Starting.antt =====
-- A process in which every call succeeds: it logs the kinds that are reconciled.
use kubeception_operator.Base.{◌≡◌, refl, true, none, some, List, [], ◌∷◌, ok, ◌↔◌}
use kubeception_operator.Types.Kinds.{Kind}
use kubeception_operator.Manager.Main.{Flags, Options, Runtime, returned, main}
use kubeception_operator.Manager.Process.{Served, main-returned}

abbrev log : Runtime
log = record {
  State = List Kind;
  Error = Unit;
  Config = Unit;
  Manager = Options;
  get_config_or_die = λ s. (some tt, s);
  new_manager = λ config options s. (ok options, s);
  complete = λ mgr kind owned c s. (ok tt, kind ∷ s);
  add_healthz_check = λ mgr name s. (ok tt, s);
  add_readyz_check = λ mgr name s. (ok tt, s);
  start = λ mgr s. (ok tt, s);
}

abbrev flags : Flags
flags = record {
  metrics_bind_address = none;
  health_probe_bind_address = none;
  leader_elect = some true;
}

abbrev final : List Kind
final =
    Kind.loadbalancer ∷ Kind.kube_scheduler ∷ Kind.kube_api_server ∷ Kind.kube_controller_manager
    ∷ Kind.pki ∷ Kind.control_plane ∷ []

main-returned_example : (main log flags [] ≡ (returned, final)) ↔ Served log flags [] final
main-returned_example = main-returned log flags [] final

-- And it does end with exit code 0.
ends : main log flags [] ≡ (returned, final)
unfolding main
ends = refl
