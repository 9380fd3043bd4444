-- ===== src/Pki/Footprint.antt =====
-- What a run of the PKI reconciler touches.
use kubeception_operator.Base.{
  String, ◌≡◌, refl, ◌⊎◌, inl, inr, Result, ok, Fault, ◌==◌, Bool-cases,
}
use kubeception_operator.Types.Meta.{Key}
use kubeception_operator.Types.Crd.{Pki}
use kubeception_operator.Types.Kinds.{Kind, Obj}
use kubeception_operator.Platform.Interface.{Platform, IsLawful}
use kubeception_operator.Platform.Fetch.{done, requeue_after, or_done}
use kubeception_operator.Platform.Effects.{Touches, Touches-pure, Touches-bind, Touches-or_requeue}
use kubeception_operator.Utils.{beside}
use kubeception_operator.Pki.{apply, sync_components, sync_admin, sync, reconcile}
use kubeception_operator.Pki.Steps.{apply-Others}
use kubeception_operator.Pki.Runs.{IsEarly}

-- The certificates of the components.
abbrev pub IsComponent : Key → Pki → Kind → Key → Type 0
IsComponent req pki k key =
    (k ≡ Kind.certificate)
    × ((key ≡ beside req pki.spec.kube_api_server.name)
        ⊎ ((key ≡ beside req pki.spec.service_accounts.name)
            ⊎ ((key ≡ beside req pki.spec.kube_controller_manager.name)
                ⊎ ((key ≡ beside req pki.spec.kube_scheduler.name)
                    ⊎ (key ≡ beside req pki.spec.konnectivity.name)))))

module _ (P : Platform) (L : IsLawful P) (req : Key) (pki : Pki) where
  open P use {State, Error, get}

  abbrev IsOwn : Kind → Key → Type 0
  IsOwn k key = IsEarly req pki k key ⊎ IsComponent req pki k key

  apply-Touches :
      (k : Kind) (name : String) (f : Obj k → Result (Fault Error) (Obj k))
      → IsOwn k (beside req name)
      → Touches P IsOwn (apply P req pki k name f)
  apply-Touches k name f own = record {
    kept = λ s l key n.
        apply-Others P L req pki k name f s l key (λ same. n (rw (← same.0, ← same.1) own));
  }

  sync_components-Touches : Touches P IsOwn (sync_components P req pki)
  unfolding sync_components
  sync_components-Touches = Touches-bind _ _ (apply-Touches _ _ _ (inr (refl, inl refl))) λ _.
      Touches-bind _ _ (apply-Touches _ _ _ (inr (refl, inr (inl refl)))) λ _.
        Touches-bind _ _ (apply-Touches _ _ _ (inr (refl, inr (inr (inl refl))))) λ _.
          Touches-bind _ _ (apply-Touches _ _ _ (inr (refl, inr (inr (inr (inl refl)))))) λ _.
            Touches-bind _ _ (apply-Touches _ _ _ (inr (refl, inr (inr (inr (inr refl))))))
              λ _. Touches-pure done

  sync_admin-Touches : (tls : Obj Kind.secret) → Touches P IsOwn (sync_admin P req pki tls)
  unfolding sync_admin
  sync_admin-Touches tls =
      Touches-bind _ _ (apply-Touches _ _ _ (inl (inr (inr (refl, refl))))) λ _.
        elim (Bool-cases (pki.spec.control_plane_ip == "")) [
          | inl empty ↦ rw empty (Touches-pure (requeue_after 3))
          | inr filled ↦ rw filled sync_components-Touches
        ]

  sync-Touches : Touches P IsOwn (sync P req pki)
  unfolding sync
  sync-Touches = Touches-bind _ _ (apply-Touches _ _ _ (inl (inl (refl, inl refl)))) λ _.
      Touches-bind _ _ (apply-Touches _ _ _ (inl (inr (inl (refl, inl refl))))) λ _.
        Touches-bind _ _ (apply-Touches _ _ _ (inl (inl (refl, inr refl)))) λ _.
          Touches-bind _ _ (apply-Touches _ _ _ (inl (inr (inl (refl, inr refl))))) λ _.
            Touches-or_requeue (get Kind.secret (beside req pki.spec.admin.name))
              (sync_admin P req pki) sync_admin-Touches

  -- However a run ends, it has left alone every object but its two issuers, its seven certificates
  -- and the administrator's kubeconfig.
  pub pki_kept :
      (s : State)
      → get Kind.pki req s ≡ ok pki
      → (k : Kind) (key : Key) → ¬ (IsEarly req pki k key ⊎ IsComponent req pki k key)
      → get k key (reconcile P req s).1 ≡ get k key s
  unfolding reconcile
  pki_kept s found k key n = rw (found, or_done) (sync-Touches.kept s k key n)
