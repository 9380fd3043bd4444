-- ===== src/Types/Meta.antt =====
-- What every object of a cluster has: its name, its labels and its controller. Fields that only
-- the API server fills (uid, resource version) are left out.
use kubeception_operator.Base.{String, Bool, ◌&&◌, Option, none, ◌==◌}
use kubeception_operator.Base.Dict.{Dict, nil}

-- `types.NamespacedName`, which is also `ctrl.Request`.
pub record Key : Type 0 where
  pub namespace : String
  pub name : String

-- The owner reference that is marked as the controller.
pub record Controller : Type 0 where
  pub kind : String
  pub name : String

pub record ObjectMeta : Type 0 where
  pub key : Key
  pub labels : Dict String
  pub controller : Option Controller

-- An object with its desired and its observed state. Where Kubernetes has `Data` in place of
-- `Spec`, `spec` holds that.
pub record Object (Spec Status : Type 0) : Type 0 where
  pub meta : ObjectMeta
  pub spec : Spec
  pub status : Status

-- `metav1.ObjectMeta{Name: name, Namespace: namespace}`
abbrev pub named : String → String → ObjectMeta
named namespace name = record {
  key = record { namespace = namespace; name = name };
  labels = nil;
  controller = none;
}

abbrev pub key_eq : Key → Key → Bool
key_eq a b = a.namespace == b.namespace && a.name == b.name
