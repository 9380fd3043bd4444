-- ===== src/Platform/Interface.antt =====
-- The calls that the operator makes of its libraries, and what their documentation says of them.
use kubeception_operator.Base.{
  ◌≡◌, ◌⊎◌, String, Bool, true, Result, ok, err, Fault, error, some, if◌then◌else◌,
}
use kubeception_operator.Types.Meta.{Key, ObjectMeta}
use kubeception_operator.Types.Core.{Bytes}
use kubeception_operator.Types.Kinds.{Kind, Obj, kind_name}

-- The part of `clientcmdapi.Config` that the operator fills: one cluster, one user and one context.
pub record Kubeconfig : Type 0 where
  pub cluster : String
  pub server : String
  pub certificate_authority_data : Bytes
  pub user : String
  pub client_certificate_data : Bytes
  pub client_key_data : Bytes
  pub context : String
  pub context_cluster : String
  pub context_user : String
  pub current_context : String

-- The part of `KubeSchedulerConfiguration` that the operator fills.
pub record SchedulerConfiguration : Type 0 where
  pub api_version : String
  pub kind : String
  pub kubeconfig : String

pub record Platform : Type 1 where
  -- The cluster, as the operator's client sees it.
  pub State : Type 0
  pub Error : Type 0
  pub is_not_found : Error → Bool
  -- client.Get
  pub get : (k : Kind) → Key → State → Result Error (Obj k)
  -- ctrl.SetControllerReference, with the owner's kind and metadata
  pub set_controller_reference : Kind → ObjectMeta → (k : Kind) → Obj k → Result Error (Obj k)
  -- controllerutil.CreateOrPatch, with the object that it leaves behind its pointer
  pub create_or_patch :
      (k : Kind)
      → Obj k
      → (Obj k → Result (Fault Error) (Obj k))
      → State
      → Result (Fault Error) (Obj k) × State
  -- client.Status().Update
  pub update_status : (k : Kind) → Obj k → State → Result Error (Unit {0}) × State
  -- clientcmd.Write
  pub write_kubeconfig : Kubeconfig → Result Error Bytes
  -- json.Marshal
  pub marshal : SchedulerConfiguration → Result Error Bytes

-- The object that CreateOrPatch asks for: its MutateFn is run on the stored object, or on the given
-- one if nothing is stored.
module _ (P : Platform) (k : Kind) (o : Obj k) (f : Obj k → Result (Fault P.Error) (Obj k)) where
  abbrev pub desired_from : Result P.Error (Obj k) → Result (Fault P.Error) (Obj k)
  desired_from (ok stored) = f stored
  desired_from (err e) = if P.is_not_found e then f o else err (error e)

abbrev pub desired :
    (P : Platform) (k : Kind)
    → Obj k
    → (Obj k → Result (Fault P.Error) (Obj k))
    → P.State
    → Result (Fault P.Error) (Obj k)
desired P k o f s = desired_from P k o f (P.get k o.meta.key s)

-- Two places in the cluster.
abbrev pub Differ : Kind → Key → Kind → Key → Type 0
Differ k key l key' = ¬ ((k ≡ l) × (key ≡ key'))

module _ (P : Platform) where
  open P use {
    State, Error, is_not_found, get, create_or_patch, update_status, set_controller_reference,
  }

  -- What the operator relies on.
  pub record IsLawful : Type 0 where
    -- An object is found under its own name.
    pub own_key :
        (k : Kind) (key : Key) (s : State) (o : Obj k) → get k key s ≡ ok o → o.meta.key ≡ key
    -- A call that returns no error has stored the object that it asked for.
    pub written :
        (k : Kind) (o : Obj k) (f : Obj k → Result (Fault Error) (Obj k)) (s : State) (o' : Obj k)
        → (create_or_patch k o f s).0 ≡ ok o'
        → (desired P k o f s ≡ ok o') × (get k o.meta.key (create_or_patch k o f s).1 ≡ ok o')
    -- An error of the Get or of the MutateFn is returned, and nothing is written.
    pub refused :
        (k : Kind) (o : Obj k) (f : Obj k → Result (Fault Error) (Obj k)) (s : State)
        (e : Fault Error)
        → desired P k o f s ≡ err e
        → create_or_patch k o f s ≡ (err e, s)
    -- A failed call has left the object as it was, or has written what it asked for.
    pub failed :
        (k : Kind) (o : Obj k) (f : Obj k → Result (Fault Error) (Obj k)) (s : State)
        (e : Fault Error)
        → (create_or_patch k o f s).0 ≡ err e
        → (get k o.meta.key (create_or_patch k o f s).1 ≡ get k o.meta.key s)
          ⊎ ((m : Obj k) × (desired P k o f s ≡ ok m)
              × (get k o.meta.key (create_or_patch k o f s).1 ≡ ok m))
    -- The libraries do not panic by themselves.
    pub no_panic :
        (k : Kind) (o : Obj k) (f : Obj k → Result (Fault Error) (Obj k)) (s : State)
        → (create_or_patch k o f s).0 ≡ err Fault.panic
        → desired P k o f s ≡ err Fault.panic
    -- No other object is touched.
    pub others :
        (k : Kind) (o : Obj k) (f : Obj k → Result (Fault Error) (Obj k)) (s : State) (l : Kind)
        (key : Key)
        → Differ k o.meta.key l key
        → get l key (create_or_patch k o f s).1 ≡ get l key s
    -- A status update stores the given status beside the stored rest; one that fails has done so
    -- or has changed nothing.
    pub status_written :
        (k : Kind) (o : Obj k) (s : State)
        → (update_status k o s).0 ≡ ok tt
        → (stored : Obj k) × (get k o.meta.key s ≡ ok stored)
          × (get k o.meta.key (update_status k o s).1 ≡ ok (record stored { status = o.status }))
    pub status_failed :
        (k : Kind) (o : Obj k) (s : State) (e : Error)
        → (update_status k o s).0 ≡ err e
        → (get k o.meta.key (update_status k o s).1 ≡ get k o.meta.key s)
          ⊎ ((stored : Obj k) × (get k o.meta.key s ≡ ok stored)
              × (get k o.meta.key (update_status k o s).1
                  ≡ ok (record stored { status = o.status })))
    pub status_others :
        (k : Kind) (o : Obj k) (s : State) (l : Kind) (key : Key)
        → Differ k o.meta.key l key
        → get l key (update_status k o s).1 ≡ get l key s
    -- The controller reference is set, and nothing else of the object changes.
    pub referenced :
        (owner : Kind) (meta : ObjectMeta) (k : Kind) (o o' : Obj k)
        → set_controller_reference owner meta k o ≡ ok o'
        → o' ≡ record o {
          meta = record o.meta {
            controller = some (record { kind = kind_name owner; name = meta.key.name });
          };
        }

  -- No call fails but for what the caller does: an object may be missing, a MutateFn may fail.
  pub record IsHealthy : Type 0 where
    pub only_missing :
        (k : Kind) (key : Key) (s : State) (e : Error) → get k key s ≡ err e → is_not_found e ≡ true
    pub references :
        (owner : Kind) (meta : ObjectMeta) (k : Kind) (o : Obj k)
        → (o' : Obj k) × (set_controller_reference owner meta k o ≡ ok o')
    -- CreateOrPatch refuses a MutateFn that changes the name or the namespace.
    pub writes :
        (k : Kind) (o : Obj k) (f : Obj k → Result (Fault Error) (Obj k)) (s : State) (m : Obj k)
        → desired P k o f s ≡ ok m
        → m.meta.key ≡ o.meta.key
        → (create_or_patch k o f s).0 ≡ ok m
    pub status_writes :
        (k : Kind) (o stored : Obj k) (s : State)
        → get k o.meta.key s ≡ ok stored
        → (update_status k o s).0 ≡ ok tt
