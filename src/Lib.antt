-- ===== src/Lib.antt =====
-- The Terraform provider for Lima: the resources of internal/provider and the domain layer they
-- stand on, internal/lima.
--
-- The provider never talks to a virtual machine itself. Terraform calls the handlers of a resource
-- with a plan and a state; they convert these to parameters of `Service` and `DiskService` and what
-- comes back to a new state and diagnostics. The services decide from what Lima reports which
-- `limactl` command to run, wait for the effect by polling, and serialise what they do to one object
-- by keyed locks. `ExecClient` runs the commands. The modules model the parts from below:
--
-- Base: texts as code points, Go's int64 as integers, Boolean tests, list helpers.
-- Errors: the error chain of internal/lima/errors.go, poll.go and disk.go, and the predicates
-- IsNotFound, IsProtected, IsAlreadyExists, IsDisk…, isCancellation, IsTimeout.
-- Paths: samePath of internal/lima/inspect.go, and ExpandPath of internal/lima/commands.go.
-- Instance: the records of internal/lima/inspect.go, disk.go, client.go and config.go.
-- Merge: mergeMounts, mergePortForwards, the comparisons same…, filterToActualChanges
-- (internal/lima/lifecycle.go).
-- Locks: the keys of internal/lima/locks.go.
-- Mutex: KeyedMutex of internal/lima/locks.go: a system of goroutines that act on one key's entry,
-- in any order (`step`, `Reachable`).
-- Session: what the methods run against. A `Host` stands for Client, DiskClient, the context and
-- the lock table, which are outside the process or shared with other goroutines; a method is a
-- function of a state that also keeps a trace of the method's events.
-- Poll: Poll of internal/lima/poll.go.
-- Service: Service of internal/lima/lifecycle.go (Exists, EnsureRunning, EnsureStopped, and below
-- it Create, Resize, SetProtection, Delete, VerifyTemplate).
-- Disks: DiskService of internal/lima/disk.go.
-- Sweep: Sweep of internal/lima/sweep.go, ResolveHome of internal/lima/sizes.go.
-- Tree: mergeMaps, markEmptySequencesAsClears, configuresAnything, toOrdered of
-- internal/lima/config.go.
-- Render: Render of internal/lima/config.go, up to the tree that it serialises.
-- Version: Compare of internal/lima/version.go, CheckVersion of internal/lima/lifecycle.go.
-- Lookup: HasMount, HasPortForward, FindMount, FindPortForward of internal/lima/inspect.go.
-- Sizes: ParseSize, FormatSize, ValidateName and ValidateNameForHome of internal/lima/sizes.go, with
-- the float64 arithmetic that ParseSize computes with (`Sizes.Float`).
-- Environment: buildEnv of internal/lima/commands.go.
-- Commands: the arguments of each command and their redaction, internal/lima/commands.go, and
-- GiBFlagValue of internal/lima/sizes.go.
-- Adapter: ExecClient of internal/lima/exec_client.go and disk.go, as a `Host` of the services
-- (`exec_host`).
-- Provider: internal/provider. Attr is the framework's value (null, unknown or known), Diagnostics
-- its diagnostics; Models, Planned and Reconcile are models.go; Document is toRenderRequest and
-- render; Records, Refresh, Changes, Instances (Create, Read, Delete, ImportState) and Instances.Update are
-- instance_resource.go, Changes also plan_modifiers.go; DiskHandlers is disk_resource.go; Config is
-- validateInstanceConfig and PlainMode; Validators is validators.go; Sources the data sources.
-- Sandbox, Examples: a concrete host, and the theorems and definitions at concrete inputs.
--
-- State: `State W` is the world that the host changes, the keys held, the flag `sharedReady`, and the
-- trace. Correspondence: `with_lock` is `unlock, err := Lock(…); if err != nil { return err }; defer
-- unlock()`; `attempt m >>= f` is a call whose error the code looks at; a Go result with a meaning in
-- both parts, as that of Create, is a pair. A handler answers with the resource's new state, `none`
-- when the resource is removed or was never recorded, and with the diagnostics.
--
-- Parameters: `Host` and `Machine` (processes, the context, temporary files, the environment),
-- `Decoders` and `Encoders` (JSON, the shortest decimal of a float32), `Platform` (the home and
-- working directories, YAML, SHA-256, and what int64(…) gives out of its range), `Surroundings`.
--
-- Bounds: Poll loops until its check is done or the context ends. Its fuel is one more than the
-- number of sleeps that the host's context still admits: a check before each sleep and one after the
-- last. A decimal of at most 20 digits writes every int64. The rounding of a decimal to a float64
-- shifts one bit at a time: a digit has less than four bits, so `4 * digits` steps widen the
-- numerator enough and `4 * digits + 53` narrow it to 53 bits. Sizes and
-- ports are unbounded integers; the code compares them and, but for ParseSize, does not compute with
-- them.
--
-- Not modelled: logging; the text of error messages and the details of diagnostics; JSON and YAML
-- decoding and encoding; the reading of versions; running processes and finding the binary; the
-- schemas, the configuration of the provider, the timeouts of a configuration, the host data source.
-- To the
-- service the lock table appears through its contract: a call of Lock gives the lock or the
-- context's error.
mod Base
pub mod Errors
pub mod Paths
pub mod Instance
pub mod Merge
pub mod Locks
pub mod Mutex
pub mod Session
pub mod Poll
pub mod Service
pub mod Disks
pub mod Tree
pub mod Render
pub mod Sweep
pub mod Version
pub mod Sizes
pub mod Lookup
pub mod Environment
pub mod Commands
pub mod Adapter
pub mod Sandbox
pub mod Provider
mod Examples
