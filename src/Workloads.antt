-- ===== src/Workloads.antt =====
-- What the operator's three Deployments have in common: whether a pod template mounts what it
-- declares, and whether what it mounts exists.
use kubeception_operator.Base.{
  ◌≡◌, String, ◌==◌, Bool, true, false, List, [], ◌∷◌, ok, if◌then◌else◌, subst, ◌∙◌,
}
use kubeception_operator.Types.Meta.{Key}
use kubeception_operator.Types.Core.{
  DeploymentSpec, Container, Volume, VolumeMount, VolumeSource, secret, config_map, empty_dir,
}
use kubeception_operator.Types.Kinds.{Kind, Obj}
use kubeception_operator.Types.Kinds.Same.{Kind_discrete, Key_discrete}
use kubeception_operator.Platform.Interface.{Platform, Differ}
use kubeception_operator.Utils.{beside}

-- The declared volume names hold the name.
abbrev pub declares : List Volume → String → Bool
declares [] name = false
declares (v ∷ vs) name = if v.name == name then true else declares vs name

abbrev pub distinct : List Volume → Bool
distinct [] = true
distinct (v ∷ vs) = if declares vs v.name then false else distinct vs

abbrev pub mounts_declared : List Volume → List VolumeMount → Bool
mounts_declared vs [] = true
mounts_declared vs (m ∷ ms) = if declares vs m.name then mounts_declared vs ms else false

abbrev pub containers_declared : List Volume → List Container → Bool
containers_declared vs [] = true
containers_declared vs (c ∷ cs) =
    if mounts_declared vs c.volume_mounts then containers_declared vs cs else false

-- The API server takes a Deployment only if its selector selects its own pods, its volumes have
-- different names and every mount names one of them.
pub record IsAcceptable (d : DeploymentSpec) : Type 0 where
  pub selects_own : d.selector ≡ d.template.labels
  pub distinct_volumes : distinct d.template.spec.volumes ≡ true
  pub declared_mounts :
      containers_declared d.template.spec.volumes d.template.spec.containers ≡ true

module _ (P : Platform) where
  open P use {State, Error, get}

  abbrev pub Exists : (k : Kind) → Key → State → Type 0
  Exists k key s = (o : Obj k) × (get k key s ≡ ok o)

  -- What a volume is filled from is in the cluster, beside the owner.
  abbrev pub SourceExists : Key → VolumeSource → State → Type 0
  SourceExists req (secret name) s = Exists Kind.secret (beside req name) s
  SourceExists req (config_map name) s = Exists Kind.config_map (beside req name) s
  SourceExists req empty_dir s = Unit

  abbrev pub SourcesExist : Key → List Volume → State → Type 0
  SourcesExist req [] s = Unit
  SourcesExist req (v ∷ vs) s = SourceExists req v.source s × SourcesExist req vs s

  -- A write of one object makes no object disappear.
  pub Exists-write :
      (k : Kind) (key : Key) (o : Obj k) (s s1 : State)
      → get k key s1 ≡ ok o
      → ((l : Kind) (key' : Key) → Differ k key l key' → get l key' s1 ≡ get l key' s)
      → (l : Kind) (key' : Key) → Exists l key' s
      → Exists l key' s1
  Exists-write k key o s s1 at others l key' (x, e) = elim (Kind_discrete k l) [
    | no n ↦ (x, others l key' (λ p. n (p.0)) ∙ e)
    | yes p ↦ elim (Key_discrete key key') [
      | no n ↦ (x, others l key' (λ q. n (q.1)) ∙ e)
      | yes q ↦ subst (λ l. Exists l key' s1) p (o, (rw (← q) at))
    ]
  ]
