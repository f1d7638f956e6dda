-- ===== src/Lib.antt =====
-- runfabric: the core of its deployments, of its durable workflow runs and of its extension registry.
--
-- A deployment takes the lock of its service and stage, keeps the lock's lease alive, plans what to
-- change, and runs phases that it checkpoints in a journal, from which a later run goes on or rolls
-- back. A workflow run is a file that the runtime loads before and saves after every transition, so
-- that it can be resumed, cancelled and replayed. The registry keeps extensions whose versions publishers
-- upload and add, and of which a client is given the best that fits its core. All these files are
-- written atomically.
--
-- Errors: Go's errors, and platform/core/model/errors/conflict.go.
-- Disk: the file system, and WriteStateFile of platform/core/state/core/atomic_write.go. Which
--   system calls fail is part of the disk, so what is proved of every disk covers every failure; a
--   file that is moved into place before it is flushed is taken to lose its data.
-- Transactions: platform/core/state/transactions. Types has types.go and integrity.go, Backend the
--   interface of backend.go with what its implementations promise where reads work, FileBackend file_backend.go,
--   Journal journal.go and Rollback rollback.go. The journal is generic in its backend.
-- Locking: platform/state/locking. FileBackend has Acquire, Read, Release and Renew of
--   file_backend.go, FileLock the lock of file_lock.go, Handle the handle and the lock interfaces of
--   internal/state/types/types.go.
-- Lease: internal/lease/lease.go. The goroutine of StartHeartbeat is a step function over what its
--   select receives, and Managed.Release takes the signals that arrive while it waits.
-- Workflow: Runs has the records of platform/core/state/core/runs.go; World the stored run, the
--   clock, the step handler, and load, save and cancel request; Step and Attempts have executeStep
--   and markCancelled, Resume has resumeRunLocked, and Control the operations of the clients, all of
--   platform/workflow/runtime/workflow_runtime.go. A function of the runtime takes a world and
--   returns the run, the error and the world that it leaves; what follows a load or a save that may
--   fail is passed on as a function (with_load, with_save). The world numbers the loads and the saves
--   and says which of them fail, so each may fail or work for itself.
-- Deploy: platform/deploy/exec. Engine has engine.go, fault.go, phases.go and idempotency.go,
--   Universal has RunDeploy and OpenDeployJournal of universal.go.
-- Planner: platform/planner/engine. Actions has types.go and remote.go, Config what the planner reads
--   of a configuration, Build has plan.go, Capabilities the capability matrix and the validation of
--   triggers.go, Diff has diff.go.
-- Compose: TopoOrder of platform/workflow/core/compose_file.go, the order in which the services of a
--   compose file are deployed.
-- Mcp: the calls that the steps of a workflow run make of MCP servers. Glob has the wildcards, Policy
--   ensureAllowed, Calls CallTool, ReadResource and GetPrompt, all of
--   platform/workflow/runtime/workflow_mcp_runtime.go; Retry has workflow_retry_strategies.go beside
--   it with callWithRetry. The records of the policies are those of platform/core/model/config/mcp.go.
-- Cluster: platform/deploy/controlplane/cluster. Coordinator has coordinator.go, lock_manager.go,
--   lease.go and heartbeat.go, over the locks of Locking kept alive by Lease and the journals of
--   Transactions, without the adapter, for which a nil and an empty list of operations differ; Remove has remove.go; Retry has retry.go and backoff.go, and RetryWithBackoff of
--   platform/deploy/apiutil/retry.go.
-- RunStore: platform/core/state/runstore. RunStore has the interface of runstore.go and Contract what it
--   promises, with the test of the expected version as an argument, since the one of DynamoDB is weaker
--   than what runstore.go says; Local is local.go on a disk; Dynamo is dynamodb.go with its Lock, which Lease keeps
--   alive. The service is a parameter with the documented behaviour of its conditional writes.
-- Secrets: platform/core/policy/secrets, the resolution of secret keys of resolver.go and the
--   validations of validate.go.
-- ConfigPatch: the addons of a function in platform/core/model/configpatch/patch.go.
-- Registry: apps/registry/internal/store/store.go. Registry has the records, Semver the versions and the
--   constraints on them, Resolve the resolution of an extension; Publish has the store, and its children
--   Create, Files and Finalize the three requests of a publisher, which Run puts in a sequence with
--   restarts; Audit is the audit log. A request takes the store and returns the answer and the store
--   that it leaves.
--
-- Numbers: versions and attempt counts of a journal are 64-bit integers that wrap (Prelude/Int);
-- times count nanoseconds, and RFC 3339 text keeps whole seconds; a duration in milliseconds stops
-- at the greatest time.Duration. Counters that only grow by one are natural numbers.
--
-- Texts: a name that an error message or a description quotes by %q is taken to hold no character
-- that Go would escape, and a name in a path no path separator. Prelude/Text reads ASCII texts, where
-- a byte is a character.
--
-- Fuel: most loops recurse on the lists and attempt counts that they run over, so none can run out,
-- and a secret key has the nine calls that resolveSecretKey allows itself. Three have fuel: a visit of
-- TopoOrder, one more than there are services; globMatch, a product of the lengths of its texts; and
-- callWithRetry, its ceiling of 50 calls. The printing of a number has 20 digits, where a 64-bit
-- number has at most 19.
--
-- Parameters: the SHA-256 digest, the signature of the local development key, the escaping of texts in a
-- URL, the clock, random tokens and numbers, the step handler, the MCP
-- client, the provider's deployment and removal, the cancellation of a context and the order in
-- which Go visits a map are arguments of the definitions that use them.
--
-- Not modelled: the server of the registry with its metadata databases, and the search, the lists
-- and the advisories of its store; the command line and the daemon, the extensions and the
-- plugin SDKs, which are services and glue around these parts; the other lock, journal and run
-- stores, and the choice of a run store by its URI; the recovery and lifecycle services; the
-- configuration beyond what the planner, the MCP policies and the addons read; the replacement of
-- secret placeholders in a text; the listing of runs and the floating-point cost summary. The mutual
-- exclusion on the lock of a run in Workflow is an argument: the error of taking the lock, or none.
pub mod Prelude
pub mod Errors
pub mod Disk
pub mod Transactions
pub mod Locking
pub mod Lease
pub mod Workflow
pub mod Deploy
pub mod Planner
pub mod Compose
pub mod Mcp
pub mod Cluster
pub mod RunStore
pub mod Secrets
pub mod ConfigPatch
pub mod Registry
