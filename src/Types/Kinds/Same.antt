-- ===== src/Types/Kinds/Same.antt =====
-- Kinds can be compared, and an object of a kind can be read as one of an equal kind.
use kubeception_operator.Base.{◌≡◌, refl, ◌≢◌, Option, none, some, String_discrete}
use kubeception_operator.Types.Meta.{Key}
use kubeception_operator.Types.Kinds.{Kind, Obj}

pub Kind_discrete : Discrete Kind
Kind_discrete = hlevel

unfoldable pub cast : (k l : Kind) → Obj k → Option (Obj l)
cast Kind.control_plane Kind.control_plane o = some o
cast Kind.loadbalancer Kind.loadbalancer o = some o
cast Kind.pki Kind.pki o = some o
cast Kind.kube_api_server Kind.kube_api_server o = some o
cast Kind.kube_controller_manager Kind.kube_controller_manager o = some o
cast Kind.kube_scheduler Kind.kube_scheduler o = some o
cast Kind.secret Kind.secret o = some o
cast Kind.config_map Kind.config_map o = some o
cast Kind.service Kind.service o = some o
cast Kind.deployment Kind.deployment o = some o
cast Kind.issuer Kind.issuer o = some o
cast Kind.certificate Kind.certificate o = some o
cast _ _ o = none

pub cast_self : (k : Kind) (o : Obj k) → cast k k o ≡ some o
unfolding cast
cast_self Kind.control_plane o = refl
cast_self Kind.loadbalancer o = refl
cast_self Kind.pki o = refl
cast_self Kind.kube_api_server o = refl
cast_self Kind.kube_controller_manager o = refl
cast_self Kind.kube_scheduler o = refl
cast_self Kind.secret o = refl
cast_self Kind.config_map o = refl
cast_self Kind.service o = refl
cast_self Kind.deployment o = refl
cast_self Kind.issuer o = refl
cast_self Kind.certificate o = refl

pub cast_ne : (k l : Kind) (o : Obj k) → k ≢ l → cast k l o ≡ none
unfolding cast
cast_ne Kind.control_plane Kind.control_plane o h = absurd (h refl)
cast_ne Kind.loadbalancer Kind.loadbalancer o h = absurd (h refl)
cast_ne Kind.pki Kind.pki o h = absurd (h refl)
cast_ne Kind.kube_api_server Kind.kube_api_server o h = absurd (h refl)
cast_ne Kind.kube_controller_manager Kind.kube_controller_manager o h = absurd (h refl)
cast_ne Kind.kube_scheduler Kind.kube_scheduler o h = absurd (h refl)
cast_ne Kind.secret Kind.secret o h = absurd (h refl)
cast_ne Kind.config_map Kind.config_map o h = absurd (h refl)
cast_ne Kind.service Kind.service o h = absurd (h refl)
cast_ne Kind.deployment Kind.deployment o h = absurd (h refl)
cast_ne Kind.issuer Kind.issuer o h = absurd (h refl)
cast_ne Kind.certificate Kind.certificate o h = absurd (h refl)
cast_ne _ _ o h = refl

pub Key_discrete : Discrete Key
Key_discrete = hlevel String_discrete
