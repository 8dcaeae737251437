-- ===== src/Lib.antt =====
-- The notebook operator: a Kubernetes operator that runs lab clusters (ClusterLab), instances
-- (InstanceLab) and Jupyter notebooks (NotebookLab). Each controller is a function `Reconcile` from
-- the key of an object to a requeue time or an error, which reads and writes the cluster through a
-- client and keeps no state of its own between runs.
--
-- Parts. Functions keep their Go names, in lower case with underscores; a suffix `_by` marks the
-- part of a function that follows a read, by the answer to it.
--   Base: integers with the wrap-around of int64 and int32, byte strings, maps, time.Duration.
--   Exec: calls that return a value or an error and leave the cluster changed, with four logics over
--     them: what a call keeps whatever happens, what it ensures if it returns a value, that it does
--     not follow a nil pointer, which ends a run as an error of its own would, and that a run in
--     parts ends at the first error, which is reported.
--   Kube, Api: the Kubernetes types as far as they are used, and api/v1alpha1/*_types.go.
--   Client: the client of controller-runtime and the helpers of apimachinery as records of
--     operations, the laws that the proofs assume of them, and a client in memory that obeys these.
--   Utils: internal/utils/helpers.go, with SHA-1 and what is used of package strings.
--   Notebook: internal/controller/notebooklab_controller.go. Lifecycle is reconcileLifecycle, Children
--     the workspace claim and the secret, Volumes, Gpu and Deployment reconcileJupyterDeployment with
--     injectGPUResources and setOrUpdateEnv, Networking reconcileNetworking, Status
--     updateNotebookStatus and updateStatusError, Reconcile the whole run.
--   ClusterLab: internal/controller/clusterlab_controller.go. Provision is the namespace, the quota
--     and the network policy, Status updateClusterLabStatus and updateStatusFailed, Reconcile the
--     finalizer, the TTL and the whole run.
--   InstanceLab: internal/controller/instancelab_controller.go. Objects is the workspace claim and the
--     labels, Pod reconcileSysboxPod, Network reconcileServices and reconcileIngress, Status
--     updateInstanceLabStatus and updateStatusFailed, Reconcile the finalizer, the parent and the
--     whole run.
--   Manager: cmd/main.go. Scheme is init and the registration of types in api/v1alpha1, Options
--     the flags and what main makes of them for the servers and the manager, Controllers what the
--     SetupWithManager methods tell the builder, Start the calls of main; controller-runtime is a
--     record of operations, and the type of a manager is its own.
--   System: the controllers next to each other on one cluster. Steps is a relation: runs of the two
--     controllers that main starts, in any order, with what others do between them. Labs, Instances
--     and Notebooks say what a run of each controller leaves alone, Owned and OwnedRuns what the
--     statuses of cluster labs name, Neighbours and Handover put runs together.
--   Script: images/script/runner.go, the check server of the images.
--   Tests: the theorems at concrete clusters.
--
-- Interaction. A controller calls the client only; the NotebookLab controller owns the objects whose
-- names begin with the notebook's name, the ClusterLab controller the namespace that
-- GenerateTargetNamespace names, and the InstanceLab controller the objects in that namespace that
-- carry an instance's label, once the phase of the cluster lab says that it is ready. A run is one
-- sequence of calls: between two calls of a run no other writer acts, and the laws of the client say
-- so. The readings of the clock are an argument.
--
-- Bounds. Loops go over lists and are recursion on them, so that no fuel is needed, and every
-- definition is total. Only the runs that follow one another until a cluster lab is deleted are
-- counted (reruns), with a theorem on how many are enough. Durations are int64 with their wrap-around;
-- the bounds of 106751 days, 153722867 minutes and 2562047 hours are the greatest whose product fits.
--
-- Not modelled: logging, generated deep copies, whose values are immutable here; nor how
-- controller-runtime makes requests of what a controller watches, but for a deletion, where a run
-- that asks for another is followed by one. What a network policy lets in is that policy's part:
-- other policies of the namespace, which the operator does not write, may let in more. The command line, the servers and the manager of
-- controller-runtime, the API server, owner references, finalizer helpers, conditions, quantities,
-- JSON, the shell, os.Getenv, the order in which Go walks a map, and time.ParseDuration (which
-- computes fractions in floating point) are parameters. Strings are taken as ASCII where case is
-- folded.
pub mod Base
pub mod Exec
pub mod Kube
pub mod Api
pub mod Utils
pub mod Notebook
pub mod ClusterLab
pub mod InstanceLab
pub mod Script
pub mod Manager
pub mod System
pub mod Client
mod Tests
