-- ===== src/Lib.antt =====
-- cfunc is a self-hosted function platform: a gateway spawns function processes or containers on
-- demand, keeps them warm in pools, and proxies HTTP requests to them; a store holds the functions,
-- cron jobs, projects, API keys, quotas and the audit log that gateways and schedulers share. This
-- library models the Go code of the gateway, the in-memory store, the quota limiter, the authentication
-- middleware, the wire protocol, the scheduler, dependency layers, build and container specs,
-- the manifest, and the Go SDK.
--
-- The parts and their files:
--
-- Base, with its children, has what the parts share: byte strings and their functions, Go maps as
-- association lists, 64-bit integers, results and a sort.
--
-- Names models the allow-list of identifiers of internal/gateway/gateway.go.
--
-- State models internal/state. State.Data has the records of state.go and tenancy.go, State.Iface the
-- parts of the Store interface that the others call, State.InMem the methods of inmem.go and
-- State.InMem.Tenancy those of inmem_tenancy.go. The modules beside the latter have the proofs: Events
-- on channels, Functions on the map of functions, Usage on quota usage, Keys on API keys, Audit on the
-- audit log.
--
-- Gateway models internal/gateway. Gateway.Path is parseFunctionPath. Gateway.Pool is the
-- pool of one function with what acquire, its release function, closeAll and reapOnce do to it under
-- its mutex; Gateway.Pool.Threads interleaves requests, the reaper and closeAll, one critical section
-- at a time. Gateway.Registry is RegisterDefAs, UnregisterAs, applyEvent and the start from the store;
-- Gateway.Registry.Synced sets the cache against the store, and Gateway.Registry.Changed does so where
-- its writes may fail. Gateway.Serve is ServeHTTP: the guards
-- before acquire, and the call with its bookkeeping and reply after it. Gateway.Lifecycle is the start
-- from options, the watcher's loop, the reaper's pass over all pools, and Close; Gateway.Lifecycle.Traces
-- has sequences of what happens to a gateway, and Gateway.Lifecycle.Closed with its lemmas in Counted
-- what becomes of the instances; Gateway.Lifecycle.Watched is about the watcher. Gateway.Stats is the
-- dashboard's snapshot of internal/gateway/stats.go, and Gateway.Stats.Counts its count of calls.
--
-- Quota models internal/quota/quota.go: Allow, Observe and flush, and in Quota.Race the
-- compare-and-swap loop of Allow under a schedule of concurrent calls. Quota.Flush is what becomes of
-- the counters, and Quota.Pushed what arrives in the in-memory store.
--
-- Auth models internal/auth: TokenAuth, LoadToken and APIKeyAuth.
--
-- Wire models internal/wire/wire.go, the frames between the gateway and a function.
--
-- Scheduler models internal/scheduler/state.go, the scheduler that mirrors the store's cron jobs, with
-- the cron library as an interface; Scheduler.Reconcile sets it against the store, with lemmas in
-- Scheduler.Wired and Scheduler.Prune, and Scheduler.Leadership follows it from Start to Stop.
-- Scheduler.Jobs, Scheduler.Host and Scheduler.Trigger are the job file, the single-host scheduler and
-- the HTTP trigger of internal/scheduler/scheduler.go, and Scheduler.Host.Reloaded sets the entries
-- against the file.
--
-- Layers models internal/gateway/layers.go and internal/layers/store.go. Of the former, Layers itself is
-- the file system, Layers.Extract unpacks an archive and Layers.Pull is ensureLocal and Resolve;
-- Layers.Joined is what safeJoin accepts, with Layers.Dirs and Layers.Frames on paths and files,
-- Layers.Confined says where an archive is unpacked to, Layers.Present what still stands there after, and
-- Layers.Atomic takes a pull as a whole.
-- Layers.Flight interleaves callers of ensureLocal for one digest, step by step: Single is on who pulls
-- and Released on who waits, with lemmas in Served, Moves and Closing. Of the latter, Layers.Refs has
-- references and manifests, Layers.Trees the directory trees, Layers.Store the layers by name and version
-- on a disk of its own, and Layers.Added what Add stores and what Resolve answers after it, with lemmas in
-- Layers.Resolved.
--
-- Sdk models the loop of sdks/go/cfunc.go over the frames of Wire, and Sdk.Serving when it ends and
-- what it answers, frame by frame in Sdk.Replies.
--
-- Builder models internal/builder/spec.go, the check of a build request. Builder.Pinned is about the
-- lines of its requirements, Builder.Validated about the whole. Oci models internal/oci/spec.go, the
-- container spec, with Oci.Sealed on what a container can write to. Manifest models
-- internal/manifest/manifest.go, the cfunc.yaml of a function.
--
-- The gateway asks the limiter before it acquires an instance, takes its functions from the store by
-- calls and by Watch events, and is told by the middleware who calls. The limiter writes to and reads
-- from the store. These calls go through the interfaces of State.Iface, which the in-memory store
-- fills.
--
-- How the code is read: a time is a natural number of nanoseconds, and 0 is Go's zero time; `now.Sub(t)
-- >= ttl` is t + ttl ≤ now. A string is a list of bytes, and TrimSpace takes ASCII white space only.
-- uint64 addition is taken modulo 2^64 and int64 addition wraps around. The order of a map's entries
-- is what a range visits, and theorems hold for any. sort.Slice is an insertion sort. A method that
-- holds a mutex throughout is one step, and its clock reading is an argument. An instance's number
-- stands for its address. sha256, JSON, YAML, gzip, tar, the cron engine, the job file and the environment are arguments of the
-- definitions that use them. A path is a map's key, by its components
-- from the root, and ToLower takes ASCII only. A call of a store that fails leaves the store as it was. Loops are
-- structural recursions and the compare-and-swap loop is a sequence of steps. Only the loop of the SDK has fuel, a number
-- of frames, and Sdk.Serving shows that one more than the stream's bytes is enough; the digits of a
-- number have one more than the number.
--
-- Not modelled: PostgreSQL and S3 (calls of a database and a client library), TLS, process and
-- container spawning, the dashboard, the build engine, the commands, and the other SDKs. Of the gateway,
-- the ticker of the reaper and the order in which Close ends its goroutines are left out. Logging is left out
-- throughout.
pub mod Base
pub mod Names
pub mod State
pub mod Quota
pub mod Auth
pub mod Gateway
pub mod Wire
pub mod Scheduler
pub mod Layers
pub mod Sdk
pub mod Builder
pub mod Oci
pub mod Manifest
