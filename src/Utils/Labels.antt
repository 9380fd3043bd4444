-- ===== src/Utils/Labels.antt =====
-- Which labels an object gets from `labels`.
use mathlib.Core.Option.{or_else}
use kubeception_operator.Base.{◌≡◌, String, ◌==◌, some, none, if◌then◌else◌}
use kubeception_operator.Base.Dict.{Dict, entries, find, lookup, NodupKeys, find-insert_all}
use kubeception_operator.Utils.{labels}

-- A key has its given label if there is one; otherwise the name and the instance have the fixed
-- ones, and any other key has none.
pub lookup-labels :
    (key component instance_name : String) (more : Dict String)
    → NodupKeys (entries more)
    → lookup key (labels component instance_name more)
      ≡ or_else (lookup key more) (
          if key == "app.kubernetes.io/name"
          then some component
          else if key == "app.kubernetes.io/instance"
          then some instance_name
          else none)
unfolding labels find
lookup-labels key component instance_name more u = find-insert_all key (entries more) _ u
