-- ===== src/Lib.antt =====
-- The GobeHost operator: a Kubernetes operator in Go that runs game servers. Users declare
-- GameServers, fleets of one GameServer with a template, and backups; the operator's controllers
-- create the StatefulSets, Services and backup jobs that these ask for.
--
-- Parts and files (paths from the repository's root):
-- - Api: api/v1alpha1/*_types.go, the three resources as records. A field that the code only copies
--   is carried as text (`Opaque`). Schema has the markers for validation and defaults, from which the
--   schemas of the resources are made.
-- - Kube: the fields of Kubernetes' own types that the code sets or reads; not code of the repository.
-- - Adapter: internal/adapter. GameAdapter is a record of the interface's methods, the registry an
--   association list that get_adapter reads.
-- - Reconciler: internal/reconciler. One function per builder (BuildService is build_service, and so
--   on), and the edits of conditions, phase and address of status.go. ConditionMap forgets the order of
--   the conditions. Proofs in OneCondition, Wiring, BackupMounts, Storage and Environment.
-- - Webhook: internal/webhook/v1alpha1. The defaulters, and the validators as functions to the list of
--   field errors in the order of the code; an empty list admits. Proofs in Admission, Defaults,
--   FleetAdmission, and, together with the builders, in Exposure and Hardening.
-- - Cluster: the client of controller-runtime, which is not code of the repository. `Api` holds one
--   function per operation, from the log of the calls made so far and the arguments to an answer, so
--   that any behaviour of the server and of other clients is one `Api`. A controller's step is a
--   function from the log to its outcome and the longer log (`M`). CreateOrUpdate is a call that
--   carries the editing function; sleeping and RCON commands are calls of the same log.
-- - Fleet: internal/controller/gameserverfleet_controller.go. Values has the functions without calls,
--   Statuses the edits of the status that each step writes, Rollout the steps of an active fleet,
--   Lifecycle deletion and Reconcile. An outcome is the result, an error, or a nil dereference
--   (`panicked`). Proofs in Deletion, Draining, SteadyState, Hash, Detection (with Xor and Fnv),
--   Warning, OverRcon, History, Rolling, Report and Storable; in Acceptance together with the webhooks.
-- - Server: internal/controller/gameserver_controller.go and internal/reconciler/finalizer.go. Edits has
--   the changes made to objects, Control Reconcile, cut into the steps between its early returns, and
--   finalize; the registry of adapters is an argument. Proofs in Teardown, Release, Provision, Phases,
--   Chain and, together with the webhooks, InPlace.
-- - Rcon: internal/rcon/rcon.go. Packets has the two packet functions over lists of bytes, Session is
--   SendCommand over a `Connection`, which stands for the package net. Proofs in RoundTrip, Framing
--   and Login.
-- - Backup: internal/controller/gameserverbackup_controller.go. Values has the functions without calls,
--   Resolve the resolution of target, storage and claim and the status of the latest Job, Control
--   Reconcile and Finalize the deletion; the namespace of the platform's ConfigMap is an argument.
--   Answers has rules for what follows the results of these steps, Securing the way from Reconcile to
--   the target of a last copy. Proofs in LastCopy, LastJob, Release
--   and Accepted.
-- - Omitted, Enforced: the schemas against the code: the defaults of both, and what the validation of the
--   schema leaves to the code.
-- - Access: the `+kubebuilder:rbac` markers of the three controllers. Role has the rules, and the
--   permissions that each call of the client needs, where a read goes through the manager's cache.
--   FleetQuiet, FleetCalls, ServerCalls and BackupCalls follow each operation of the controllers and the
--   calls that it makes, by the rules of Cluster/Footprint; Passes has the runs of the whole
--   operator as a step relation on logs, Waiting the time that a pass takes, Isolation the namespaces
--   that the calls of a pass concern, Guarded the finalizer before any child.
-- - Manager: cmd/main.go, the SetupWithManager functions and the registration of the webhooks.
--   Options has the flags and the options made from them, Setup main itself; whether a step of the
--   set-up fails is a parameter. Proofs in Boot and Http.
-- - Prelude, Tests: shared helpers; sample objects and the theorems applied to them.
--
-- Numbers: int32 and int64 fields are ℤ; generations, times in seconds and the replica counts of a status
-- are ℕ. The FNV hash multiplies modulo 2^32, and the sum of the countdown and 5, an int32, wraps
-- as in Go. Loops over lists and the countdown are structural recursion: there is no fuel.
--
-- Maps are association lists with one binding per key; nil and empty maps are one. json.Marshal, the
-- quoting of fmt and SetControllerReference are fields of `Api`. metav1.Now is read from the log, so
-- that two readings without a call between them agree. Logging has no effect and is left out.
--
-- Not modelled: generated deep copies, since a record is a value here, the parsing of the command line,
-- and what controller-runtime does with the options, controllers and webhooks that it is given, which
-- are not code of the repository. recordEvent only logs.
pub mod Prelude
pub mod Kube
pub mod Api
pub mod Adapter
pub mod Reconciler
pub mod Webhook
pub mod Cluster
pub mod Fleet
pub mod Server
pub mod Backup
pub mod Omitted
pub mod Enforced
pub mod Rcon
pub mod Access
pub mod Manager
pub mod Tests
