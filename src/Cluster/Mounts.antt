-- ===== src/Cluster/Mounts.antt =====
-- No interleaving leaves a Deployment that mounts what is not there.
use kubeception_operator.Base.{
  ◌≡◌, ◌≢◌, refl, sym, ap, ◌∙◌, subst, ok, err, inl, inr, Result, Fault, List, [], ◌∷◌, Bool-cases,
}
use kubeception_operator.Types.Meta.{Key, ObjectMeta}
use kubeception_operator.Types.Core.{
  DeploymentSpec, Volume, VolumeSource, secret, config_map, empty_dir,
}
use kubeception_operator.Types.Kinds.{Kind, Obj}
use kubeception_operator.Types.Kinds.Same.{Key_discrete}
use kubeception_operator.Platform.Exec.{Exec, pure, continue, ◌>>=◌, ◌>>◌}
use kubeception_operator.Platform.Interface.{Platform, IsLawful, Differ}
use kubeception_operator.Platform.Fetch.{Ending, or_done, or_requeue, with_object, with_secret}
use kubeception_operator.Platform.Owned.{apply_owned, apply_owned-stored, apply_owned-others}
use kubeception_operator.Utils.{beside}
use kubeception_operator.Workloads.{Exists, SourceExists, SourcesExist}
use kubeception_operator.Cluster.{Grows}
use kubeception_operator.Cluster.Growth.{Exists-after, apply_owned-Left, apply_owned-Grows}

module _ (P : Platform) where
  open P use {State, Error, get}

  -- Whatever a Deployment mounts is there.
  abbrev pub AllMounted : State → Type 0
  AllMounted s =
      (key : Key) (d : Obj Kind.deployment)
      → get Kind.deployment key s ≡ ok d
      → SourcesExist P key d.spec.template.spec.volumes s

  SourceExists-Grows :
      (key : Key) (v : VolumeSource) (s s' : State)
      → ((k : Kind) (key : Key) → Exists P k key s → Exists P k key s')
      → SourceExists P key v s
      → SourceExists P key v s'
  SourceExists-Grows key (secret name) s s' g there = g Kind.secret (beside key name) there
  SourceExists-Grows key (config_map name) s s' g there = g Kind.config_map (beside key name) there
  SourceExists-Grows key empty_dir s s' g there = tt

  SourcesExist-Grows :
      (key : Key) (vs : List Volume) (s s' : State)
      → ((k : Kind) (key : Key) → Exists P k key s → Exists P k key s')
      → SourcesExist P key vs s
      → SourcesExist P key vs s'
  SourcesExist-Grows key [] s s' g there = tt
  SourcesExist-Grows key (v ∷ vs) s s' g (first, rest) =
      (SourceExists-Grows key v.source s s' g first, SourcesExist-Grows key vs s s' g rest)

  pub Grows-AllMounted : (s s' : State) → Grows P s s' → AllMounted s → AllMounted s'
  Grows-AllMounted s s' g all key d found =
      SourcesExist-Grows key d.spec.template.spec.volumes s s' g.exists
        (all key d (sym (g.deployments key) ∙ found))

  -- A block keeps what its first part keeps, however that ends, and its rest.
  bind-AllMounted :
      {A B : Type 0} (m : Exec State Error A) (next : A → Exec State Error B) (s : State)
      → AllMounted (m s).1
      → ((a : A) → (m s).0 ≡ ok a → AllMounted (next a (m s).1).1)
      → AllMounted ((m >>= next) s).1
  bind-AllMounted {A} m next s first rest = split (m s).0 refl
    where
      split : (r : Result (Fault Error) A) → (m s).0 ≡ r → AllMounted (continue r next (m s).1).1
      split (ok a) e = rest a e
      split (err x) e = first

  pub with_object-AllMounted :
      (k : Kind) (key : Key) (f : Obj k → Exec State Error Ending) (s : State)
      → AllMounted s
      → ((o : Obj k) → get k key s ≡ ok o → AllMounted (f o s).1)
      → AllMounted (with_object P k key f s).1
  with_object-AllMounted k key f s now rest = split (get k key s) refl
    where
      split : (r : Result Error (Obj k)) → get k key s ≡ r → AllMounted (or_done P r f s).1
      split (ok o) e = rest o e
      split (err x) e = elim (Bool-cases (P.is_not_found x)) [
        | inl missing ↦ rw missing now
        | inr broken ↦ rw broken now
      ]

  pub with_secret-AllMounted :
      (key : Key) (f : Obj Kind.secret → Exec State Error Ending) (s : State)
      → AllMounted s
      → ((o : Obj Kind.secret) → get Kind.secret key s ≡ ok o → AllMounted (f o s).1)
      → AllMounted (with_secret P key f s).1
  with_secret-AllMounted key f s now rest = split (get Kind.secret key s) refl
    where
      split :
          (r : Result Error (Obj Kind.secret))
          → get Kind.secret key s ≡ r
          → AllMounted (or_requeue P r f s).1
      split (ok o) e = rest o e
      split (err x) e = now

module _ (P : Platform) (L : IsLawful P) where
  open P use {State, Error, get}

  -- A write of something else than a Deployment, and what comes after it: the object is there then,
  -- and whatever was there before.
  pub write-AllMounted :
      (owner : Kind) (meta : ObjectMeta) (k : Kind) (o : Obj k)
      (f : Obj k → Result (Fault Error) (Obj k)) (next : Obj k → Exec State Error Ending)
      (s : State)
      → k ≢ Kind.deployment
      → AllMounted P s
      → ((o' : Obj k) (s1 : State)
          → AllMounted P s1
          → Exists P k o.meta.key s1
          → ((l : Kind) (key : Key) → Exists P l key s → Exists P l key s1)
          → AllMounted P (next o' s1).1)
      → AllMounted P ((apply_owned P owner meta k o f >>= next) s).1
  write-AllMounted owner meta k o f next s n all rest =
      let m = apply_owned P owner meta k o f in
      let grows = apply_owned-Grows P L owner meta k o f s n in
      let after = Grows-AllMounted P s (m s).1 grows all in
      bind-AllMounted P m next s after λ o' wrote.
        let (_, _, _, stored) = apply_owned-stored P L owner meta k o f s o' wrote in
        rest o' (m s).1 after (o', stored) grows.exists

  -- The write of a Deployment whose mounts are there, which ends a run.
  pub deploy-AllMounted :
      (owner : Kind) (meta : ObjectMeta) (o : Obj Kind.deployment)
      (f : Obj Kind.deployment → Result (Fault Error) (Obj Kind.deployment)) (spec : DeploymentSpec)
      (next : Ending) (s : State)
      → ((b m : Obj Kind.deployment) → f b ≡ ok m → m.spec ≡ spec)
      → AllMounted P s
      → SourcesExist P o.meta.key spec.template.spec.volumes s
      → AllMounted P ((apply_owned P owner meta Kind.deployment o f >> pure next) s).1
  deploy-AllMounted owner meta o f spec next s makes all sources =
      bind-AllMounted P m _ s after (λ _ _. after)
    where
      m : Exec State Error (Obj Kind.deployment)
      m = apply_owned P owner meta Kind.deployment o f

      others :
          (l : Kind) (key : Key)
          → Differ Kind.deployment o.meta.key l key
          → get l key (m s).1 ≡ get l key s
      others = apply_owned-others P L owner meta Kind.deployment o f s

      grows : (k : Kind) (key : Key) → Exists P k key s → Exists P k key (m s).1
      grows =
          Exists-after P Kind.deployment o.meta.key _ s _
            (apply_owned-Left P L owner meta Kind.deployment o f s) others

      own :
          (d : Obj Kind.deployment)
          → get Kind.deployment o.meta.key (m s).1 ≡ ok d
          → SourcesExist P o.meta.key d.spec.template.spec.volumes (m s).1
      own d found = elim (apply_owned-Left P L owner meta Kind.deployment o f s) [
        | inl same ↦
            SourcesExist-Grows P o.meta.key d.spec.template.spec.volumes s (m s).1 grows
              (all o.meta.key d (sym same ∙ found))
        | inr (x, (b, made), at) ↦
            let e : d ≡ x = cc (found, at) in
            let specs : d.spec ≡ spec =
              ap (λ (d : Obj Kind.deployment). d.spec) e ∙ makes b x made in
            subst
              (λ (spec : DeploymentSpec).
                SourcesExist P o.meta.key spec.template.spec.volumes (m s).1)
              (sym specs)
              (SourcesExist-Grows P o.meta.key spec.template.spec.volumes s (m s).1 grows sources)
      ]

      after : AllMounted P (m s).1
      after key d found = elim (Key_discrete o.meta.key key) [
        | no n ↦
            SourcesExist-Grows P key d.spec.template.spec.volumes s (m s).1 grows
              (all key d (sym (others Kind.deployment key (λ e. n (e.1))) ∙ found))
        | yes p ↦
            subst
              (λ key.
                get Kind.deployment key (m s).1 ≡ ok d
                → SourcesExist P key d.spec.template.spec.volumes (m s).1)
              p (own d) found
      ]
