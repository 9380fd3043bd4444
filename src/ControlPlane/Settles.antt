-- ===== src/ControlPlane/Settles.antt =====
-- A second run of the control plane's controller, by its plan.
use kubeception_operator.Base.{String, ◌≡◌, refl, ap, List, [], ◌∷◌, ◌∙◌}
use kubeception_operator.Types.Meta.{Key}
use kubeception_operator.Types.Crd.{ControlPlane}
use kubeception_operator.Types.Kinds.{Kind}
use kubeception_operator.Platform.Memory.{Table, update_self}
use kubeception_operator.Platform.Fetch.{done}
use kubeception_operator.Platform.View.{Plan, Write, written, write, execute}
use kubeception_operator.Platform.Settled.{
  Repeats, on_object-Repeats, execute-Repeats, execute-others,
}
use kubeception_operator.Utils.{coalesce_string}
use kubeception_operator.ControlPlane.Children.{pod_labels}
use kubeception_operator.ControlPlane.Plan.{
  plan, child, current_ip, pki_child, api_server_child, controller_manager_child, scheduler_child,
  children, current-status,
}

module _ (req : Key) where
  abbrev after_load_balancer : ControlPlane → String → List Write
  after_load_balancer cp ip =
      pki_child req cp ip
      ∷ api_server_child req cp ip
      ∷ controller_manager_child req cp
      ∷ scheduler_child req cp
      ∷ []

  -- The children that are written keep the load balancer's address.
  same_ip :
      (cp : ControlPlane) (ip : String) (t : Table)
      → current_ip req cp (execute (children req cp ip) t Kind.loadbalancer req)
        ≡ current_ip req cp (t Kind.loadbalancer req)
  unfolding execute write
  same_ip cp ip t =
      let lb = child req cp Kind.loadbalancer cp.spec.loadbalancer in
      ap (current_ip req cp) (
        execute-others (after_load_balancer cp ip) (write lb t) Kind.loadbalancer req
          ((λ h. cc (h.0)), ((λ h. cc (h.0)), ((λ h. cc (h.0)), ((λ h. cc (h.0)), tt))))
        ∙ update_self Kind.loadbalancer req (written lb t) t)
      ∙ current-status req cp (t Kind.loadbalancer req)

  abbrev split : ControlPlane → Plan
  split cp t = (done, execute (children req cp (current_ip req cp (t Kind.loadbalancer req))) t)

  pub plan-Repeats : (t : Table) → Repeats (plan req) t
  unfolding plan coalesce_string pod_labels
  plan-Repeats t = on_object-Repeats {k = Kind.control_plane} req split t λ cp _.
      let ip = current_ip req cp (t Kind.loadbalancer req) in
      let ws = children req cp ip in
      (
        execute-others ws t Kind.control_plane req (
          (λ h. cc (h.0)),
          ((λ h. cc (h.0)), ((λ h. cc (h.0)), ((λ h. cc (h.0)), ((λ h. cc (h.0)), tt)))),
        ),
        ap (λ ip. (done, execute (children req cp ip) (execute ws t))) (same_ip cp ip t)
            ∙ execute-Repeats done ws t
                (
                  ((λ h. cc (h.0)), ((λ h. cc (h.0)), ((λ h. cc (h.0)), ((λ h. cc (h.0)), tt)))),
                  (
                    ((λ h. cc (h.0)), ((λ h. cc (h.0)), ((λ h. cc (h.0)), tt))),
                    (((λ h. cc (h.0)), ((λ h. cc (h.0)), tt)), (((λ h. cc (h.0)), tt), (tt, tt))),
                  ),
                )
                ((λ o. refl), ((λ o. refl), ((λ o. refl), ((λ o. refl), ((λ o. refl), tt))))),
      )
