-- ===== src/DeepCopy/Plain.antt =====
-- The copies of structs that hold neither a map nor a slice: `*out = *in` is all that they do.
use kubeception_operator.Base.{Option}
use kubeception_operator.Types.Crd.{
  ControlPlaneStatus, KubeApiServerOptions, KubeApiServerStatus, KubeApiServerTls,
  KubeControllerManagerStatus, KubeControllerManagerTls, KubeSchedulerStatus, LoadbalancerStatus,
  PkiAdmin, PkiCa, PkiKonnectivity, PkiKubeControllerManager, PkiKubeScheduler, PkiServiceAccounts,
  PkiStatus, Service,
}
use kubeception_operator.DeepCopy.Into.{Copy, copy_plain, deep_copy}

abbrev pub into_control_plane_status : Copy ControlPlaneStatus
into_control_plane_status = copy_plain

abbrev pub copy_control_plane_status : Copy (Option ControlPlaneStatus)
copy_control_plane_status = deep_copy into_control_plane_status

abbrev pub into_kube_api_server_options : Copy KubeApiServerOptions
into_kube_api_server_options = copy_plain

abbrev pub copy_kube_api_server_options : Copy (Option KubeApiServerOptions)
copy_kube_api_server_options = deep_copy into_kube_api_server_options

abbrev pub into_kube_api_server_status : Copy KubeApiServerStatus
into_kube_api_server_status = copy_plain

abbrev pub copy_kube_api_server_status : Copy (Option KubeApiServerStatus)
copy_kube_api_server_status = deep_copy into_kube_api_server_status

abbrev pub into_kube_api_server_tls : Copy KubeApiServerTls
into_kube_api_server_tls = copy_plain

abbrev pub copy_kube_api_server_tls : Copy (Option KubeApiServerTls)
copy_kube_api_server_tls = deep_copy into_kube_api_server_tls

abbrev pub into_kube_controller_manager_status : Copy KubeControllerManagerStatus
into_kube_controller_manager_status = copy_plain

abbrev pub copy_kube_controller_manager_status : Copy (Option KubeControllerManagerStatus)
copy_kube_controller_manager_status = deep_copy into_kube_controller_manager_status

abbrev pub into_kube_controller_manager_tls : Copy KubeControllerManagerTls
into_kube_controller_manager_tls = copy_plain

abbrev pub copy_kube_controller_manager_tls : Copy (Option KubeControllerManagerTls)
copy_kube_controller_manager_tls = deep_copy into_kube_controller_manager_tls

abbrev pub into_kube_scheduler_status : Copy KubeSchedulerStatus
into_kube_scheduler_status = copy_plain

abbrev pub copy_kube_scheduler_status : Copy (Option KubeSchedulerStatus)
copy_kube_scheduler_status = deep_copy into_kube_scheduler_status

abbrev pub into_loadbalancer_status : Copy LoadbalancerStatus
into_loadbalancer_status = copy_plain

abbrev pub copy_loadbalancer_status : Copy (Option LoadbalancerStatus)
copy_loadbalancer_status = deep_copy into_loadbalancer_status

abbrev pub into_pki_admin : Copy PkiAdmin
into_pki_admin = copy_plain

abbrev pub copy_pki_admin : Copy (Option PkiAdmin)
copy_pki_admin = deep_copy into_pki_admin

abbrev pub into_pki_ca : Copy PkiCa
into_pki_ca = copy_plain

abbrev pub copy_pki_ca : Copy (Option PkiCa)
copy_pki_ca = deep_copy into_pki_ca

abbrev pub into_pki_konnectivity : Copy PkiKonnectivity
into_pki_konnectivity = copy_plain

abbrev pub copy_pki_konnectivity : Copy (Option PkiKonnectivity)
copy_pki_konnectivity = deep_copy into_pki_konnectivity

abbrev pub into_pki_kube_controller_manager : Copy PkiKubeControllerManager
into_pki_kube_controller_manager = copy_plain

abbrev pub copy_pki_kube_controller_manager : Copy (Option PkiKubeControllerManager)
copy_pki_kube_controller_manager = deep_copy into_pki_kube_controller_manager

abbrev pub into_pki_kube_scheduler : Copy PkiKubeScheduler
into_pki_kube_scheduler = copy_plain

abbrev pub copy_pki_kube_scheduler : Copy (Option PkiKubeScheduler)
copy_pki_kube_scheduler = deep_copy into_pki_kube_scheduler

abbrev pub into_pki_service_accounts : Copy PkiServiceAccounts
into_pki_service_accounts = copy_plain

abbrev pub copy_pki_service_accounts : Copy (Option PkiServiceAccounts)
copy_pki_service_accounts = deep_copy into_pki_service_accounts

abbrev pub into_pki_status : Copy PkiStatus
into_pki_status = copy_plain

abbrev pub copy_pki_status : Copy (Option PkiStatus)
copy_pki_status = deep_copy into_pki_status

abbrev pub into_service : Copy Service
into_service = copy_plain

abbrev pub copy_service : Copy (Option Service)
copy_service = deep_copy into_service
