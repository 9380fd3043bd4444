-- ===== src/Pki/Batch.antt =====
-- A list of certificates that is requested one after the other.
use kubeception_operator.Base.{String, ◌≡◌, ◌≢◌, refl, ◌∙◌, Result, Fault, ok, [], ◌∷◌, arith}
use kubeception_operator.Types.Meta.{Key}
use kubeception_operator.Types.Crd.{Pki}
use kubeception_operator.Types.CertManager.{CertificateSpec}
use kubeception_operator.Types.Kinds.{Kind, Obj}
use kubeception_operator.Platform.Exec.{Exec, pure, ◌>>◌}
use kubeception_operator.Platform.Interface.{Platform, IsLawful, IsHealthy, Differ}
use kubeception_operator.Platform.Fetch.{Ending, done}
use kubeception_operator.Utils.{beside}
use kubeception_operator.Pki.{mutate_certificate, apply, sync_components}
use kubeception_operator.Pki.Steps.{Ends, Ends-write}
use kubeception_operator.Pki.Runs.{Ends-pure}
use kubeception_operator.Pki.Issued.{Requests, components, Fresh, Distinct, AllStored}

module _ (P : Platform) (L : IsLawful P) (req : Key) (pki : Pki) where
  open P use {State, Error, get}

  unfoldable pub issue : Requests → Exec State Error Ending
  issue [] = pure done
  issue ((name, spec) ∷ cs) =
      apply P req pki Kind.certificate name (mutate_certificate spec) >> issue cs

  pub sync_components-issue : sync_components P req pki ≡ issue (components pki)
  unfolding sync_components issue
  sync_components-issue = refl

  abbrev pub NotAmong : Requests → Kind → Key → Type 0
  NotAmong [] k key = Unit
  NotAmong ((name, _) ∷ cs) k key =
      Differ Kind.certificate (beside req name) k key × NotAmong cs k key

  pub Fresh-NotAmong :
      (name : String) (cs : Requests)
      → Fresh name cs
      → NotAmong cs Kind.certificate (beside req name)
  Fresh-NotAmong name [] f = tt
  Fresh-NotAmong name ((other, _) ∷ cs) (n, f) =
      ((λ e. let same = e.1 in n (cc same)), Fresh-NotAmong name cs f)

  pub Other_kind-NotAmong :
      (k : Kind) (key : Key) (cs : Requests) → Kind.certificate ≢ k → NotAmong cs k key
  Other_kind-NotAmong k key [] n = tt
  Other_kind-NotAmong k key (c ∷ cs) n = ((λ e. n (e.0)), Other_kind-NotAmong k key cs n)

  unfoldable pub Issues : Requests → State → Ending → State → Type 0
  Issues cs s a s' =
      (a ≡ done)
      × AllStored P req cs s'
      × ((k : Kind) (key : Key) → NotAmong cs k key → get k key s' ≡ get k key s)

  pub Ends-map :
      {A : Type 0} {Q R : A → State → Type 0} (x : Result (Fault Error) A × State)
      → ((a : A) (s : State) → Q a s → R a s)
      → Ends x Q
      → Ends x R
  Ends-map x f e = record { result = e.result; returns = e.returns; holds = f _ _ e.holds }

  pub mutate_certificate-total :
      (spec : CertificateSpec) (b : Obj Kind.certificate)
      → (m : Obj Kind.certificate) × (mutate_certificate {E = Error} spec b ≡ ok m)
        × (m.meta.key ≡ b.meta.key)
  unfolding mutate_certificate
  mutate_certificate-total spec b = (_, refl, refl)

  pub mutate_certificate-spec :
      (spec : CertificateSpec) (b o : Obj Kind.certificate)
      → mutate_certificate {E = Error} spec b ≡ ok o
      → o.spec ≡ spec
  unfolding mutate_certificate
  mutate_certificate-spec spec b o made = ground (arith, made)

  -- Where no call fails, all certificates of a list are stored, as long as none overwrites another.
  pub issue-Issues :
      IsHealthy P → (cs : Requests) → Distinct cs → (s : State) → Ends (issue cs s) (Issues cs s)
  unfolding issue Issues
  issue-Issues H [] d s = Ends-pure done s (refl, tt, λ k key _. refl)
  issue-Issues H ((name, spec) ∷ cs) (fresh_name, d) s =
      Ends-write P L req pki Kind.certificate name (mutate_certificate spec) _ s H
        (mutate_certificate-total spec)
        λ s1 o b made stored others.
          Ends-map (issue cs s1)
            (λ a s' (is_done, all, kept).
              let stays =
                kept Kind.certificate (beside req name) (Fresh-NotAmong name cs fresh_name) in
              (
                is_done,
                ((o, stays ∙ stored, mutate_certificate-spec spec b o made), all),
                λ k key n. kept k key (n.1) ∙ others k key (n.0),
              ))
            (issue-Issues H cs d s1)
