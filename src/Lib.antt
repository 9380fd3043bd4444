-- ===== src/Lib.antt =====
-- A verification development for kubeception-operator, a Kubernetes operator that runs the control
-- planes of tenant clusters as ordinary workloads.
--
-- The program. A ControlPlane object is split by its controller into a Loadbalancer, a Pki, a
-- KubeAPIServer, a KubeControllerManager and a KubeScheduler (internal/controller/
-- controlplane_controller.go). Each of these has a controller of its own, which writes Services,
-- issuers and certificates, kubeconfigs, configurations and Deployments. The controllers share no
-- memory: each reads and writes objects of the API server, and runs again when its object or one
-- that it owns changes, or after a requeue.
--
-- The files.
--   Base          strings, integers, results, and Go maps as lists of entries with a nil case
--   Types         api/v1alpha1/*_types.go, and the fields of the Kubernetes and cert-manager types
--                 that the operator sets or reads; Kinds has the twelve kinds of objects and the
--                 zero values that a Go struct literal leaves
--   Platform      the client, controllerutil, clientcmd and encoding/json, as a record of
--                 operations (Interface), with their documented behaviour as the laws IsLawful, and
--                 IsHealthy where no call fails; Exec is the monad of the reconcilers, Owned their
--                 CreateOrPatch, Fetch and Gets their Gets, Memory an instance that keeps the laws;
--                 Yields, Effects, Panics and Healthy are the rules by which runs are taken apart;
--                 View is the abstract view of a state, as a table of objects, and what it means
--                 that a run implements a change of that table; Settled is about writes that a
--                 table already shows, Advances about tables that only gain objects
--   Utils         internal/controller/utils.go: labels, CoaleseString, GenerateKubeconfigFromSecret
--   ControlPlane, LoadBalancer, Pki, KubeApiServer, KubeControllerManager, KubeScheduler
--                 one controller of internal/controller each: `reconcile` is its Reconcile method,
--                 `mutate_...` are the MutateFns it hands to CreateOrPatch; Plan is what the
--                 controller promises, as a change of a table; Runs and the other children have
--                 the theorems on whole runs
--   Workloads     when the API server takes a Deployment and whether what it mounts exists
--   Wiring        what holds across the control plane, the load balancer, the PKI and the API server
--   Manager       cmd/main.go and the SetupWithManager methods: Main is the process, over
--                 controller-runtime as a record of operations; Plans joins the six plans,
--                 Settles, Liveness and Tenant are about several runs of the controllers
--   Cluster       the steps of a cluster: runs of all controllers in any order, among those of
--                 others, and the states that they reach
--   DeepCopy      api/v1alpha1/zz_generated.deepcopy.go, on a heap of maps and slices: `into_...`
--                 is DeepCopyInto, `copy_...` DeepCopy and `object_...` DeepCopyObject; Shape says
--                 what a deep copy is
--   Examples      a cluster on which every theorem is applied
--
-- The model. A reconciler maps a state to a result and a state; what was written before a failure
-- stays written. A result is a value, an error or a panic. A state is whatever the platform says;
-- the theorems use only the laws. A law says what a call may do when it fails, too: a failed write
-- has changed nothing or has written what it asked for. One run is one sequence of calls: the
-- laws leave out other clients that write between two calls of a run.
--
-- Bounds. There is no fuel but in the printing of numbers (Base.Int), which has one round for each
-- of the 20 digits that a 64-bit number has at most. A Go `int32` is an integer and a `uint` a
-- natural number; the operator does not calculate with them.
--
-- Not modelled: logging; the parsing of the command line, the logger and the scheme in cmd/main.go;
-- the registration of the API group; fields of Kubernetes types that the operator neither sets nor
-- reads. The deep copies of ObjectMeta and ListMeta are parameters, and the array of a list's items is
-- a value: only what the items refer to is in the heap. A MutateFn is a function of the object it is
-- run on, since each one writes only the object that was handed to CreateOrPatch.
pub mod Base
pub mod Types
pub mod Platform
pub mod Utils
pub mod Workloads
pub mod Wiring
pub mod Manager
pub mod Cluster
pub mod DeepCopy
pub mod Examples
pub mod ControlPlane
pub mod LoadBalancer
pub mod KubeScheduler
pub mod KubeControllerManager
pub mod KubeApiServer
pub mod Pki
