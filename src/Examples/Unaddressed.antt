-- ===== src/Examples/Unaddressed.antt =====
-- A run of the PKI's reconciler for a control plane without an address.
use mathlib.Core.Option.{or_else}
use kubeception_operator.Base.{◌≡◌, refl, String_discrete, ok, [], ◌∷◌}
use kubeception_operator.Types.Crd.{Pki}
use kubeception_operator.Types.Kinds.{Kind, Obj}
use kubeception_operator.Types.Kinds.Same.{cast}
use kubeception_operator.Platform.Fetch.{requeue_after}
use kubeception_operator.Platform.Memory.{Table, update, open_memory, open_memory-IsHealthy}
use kubeception_operator.Utils.{beside, kubeconfig_name, kubeconfig_data}
use kubeception_operator.Pki.{reconcile}
use kubeception_operator.Pki.Unaddressed.{pki_writes_hostless_kubeconfig}
use kubeception_operator.Examples.{req, pki, issued, full_cluster, generated, lawful}

abbrev unaddressed : Pki
unaddressed = record pki { spec = record pki.spec { control_plane_ip = "" } }

abbrev early : Table
early = update Kind.pki req unaddressed full_cluster

unaddressed_found : open_memory.get Kind.pki req early ≡ ok unaddressed
unfolding update or_else cast String_discrete
unaddressed_found = refl

admin_early : open_memory.get Kind.secret (beside req "admin") early ≡ ok (issued "admin")
unfolding update or_else cast String_discrete
admin_early = refl

pki_writes_hostless_kubeconfig_example :
    ((reconcile open_memory req early).0 ≡ ok (requeue_after 3))
    × ((o : Obj Kind.secret) × (open_memory.get Kind.secret
            (beside req (kubeconfig_name "admin"))
            (reconcile open_memory req early).1
          ≡ ok o)
        × (o.spec ≡ kubeconfig_data (1 ∷ 3 ∷ 2 ∷ [])))
pki_writes_hostless_kubeconfig_example =
    pki_writes_hostless_kubeconfig open_memory lawful req unaddressed open_memory-IsHealthy
      (issued "admin") (1 ∷ 3 ∷ 2 ∷ []) (generated "admin" _) refl early unaddressed_found
      admin_early
