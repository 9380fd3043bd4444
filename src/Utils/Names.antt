-- ===== src/Utils/Names.antt =====
-- The name of a kubeconfig.
use text.Mathlib.TextLemmas.{append_cancel_left, append-nil}
use kubeception_operator.Base.{String, String_discrete, ◌≡◌, ◌≢◌, ◌∙◌}
use kubeception_operator.Utils.{kubeconfig_name}

-- It is not the name of the Secret that it is made from.
pub ne-kubeconfig_name : (name : String) → name ≢ kubeconfig_name name
unfolding String_discrete
ne-kubeconfig_name name same =
    let nothing : "" ≡ "-kubeconfig" =
      append_cancel_left name "" "-kubeconfig" (append-nil name ∙ same) in
    cc nothing
