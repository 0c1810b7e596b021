-- ===== src/Lib.antt =====
-- The fleeting plugin for VMware Cloud Director: a GitLab Runner plugin that keeps the vApps of an
-- autoscaling group. A store caches which instances are wanted and which exist; a reconcile loop
-- polls vCD, queues vApps that nothing tracks for deletion, starts creates and deletes in
-- goroutines, and retries them; a limiter, a throttle gate and a circuit breaker bound what it asks
-- of vCD.
--
-- What models which part:
--   Base        shared names, tests on numbers, and tables (Go maps) as association lists
--   Instance    instancegroup.go: the phases and the instance record
--   Store       store.go: the store, with its methods in Store/Ops and Store/Expiry, and the reads
--               in Store/Query; theorems on the two maps in Store/Index and on instances that
--               vCD no longer lists in Store/Missing
--   Throttle    throttle.go: the gate
--   Limiter     oplimiter.go: the slots for operations
--   Breaker     reconciler.go: recordCreateFailure, recordCreateSuccess, the test of dispatchCreates
--   Reconciler  reconciler.go: the shared state. Reconciler/Poll is pollVCD with readListedVApps
--               and ownsVApp of vcd.go; Reconciler/Hold the startup hold; Reconciler/Dispatch the
--               start of goroutines and Reconciler/Finish their end; Reconciler/Cycle the cycle,
--               garbage collection, the API and the snapshot of status.go; Reconciler/Steps every
--               interleaving of all of these as a step relation, in which `pollErr == nil`, a local
--               of reconcileOnce, is a field of the state; Reconciler/Slots is what it keeps of
--               the slots and what goes before the first create, Reconciler/Single of the creates, Reconciler/Retry a failed create,
--               Reconciler/Made a create that succeeds, Reconciler/Cycles the cycles of the loop among
--               those steps, and Reconciler/Shutdown the end of the group
--   Session     session.go: the shared session and its renewal; vcd.go: getVCDClient
--   Call        vcd_safe.go: one run of vcdCall's op, with isOperationLimitError of throttle.go
--   Provider    provider.go: Update and ConnectInfo; Provider/Init is Init
--   Config      config.go: validate and populate; withDefaults of reconciler.go
--   Vcd         the calls of vCD as actions that log what they ask; Vcd/Plans says which requests
--               change vCD and in which order, with one rule in Vcd/Rules for each way to build
--               an action
--   Creation    vcd.go, vcd_create.go: createInstance in Creation/Run, and in Creation/Parts what it
--               calls, createRawVApp among it; theorems in Creation/Order and Creation/Ends
--   Deletion    vcd.go: deleteInstance, waitForTasksCompletion, cleanUpInstanceByName
--   Waits       vcd_create.go: waitTaskCompletion; vcd.go: getPrimaryIPAddress, the loops of
--               waitForVMCreation and waitForSSHReadiness
--   Names       utils.go: random names, on bytes
--   Text        strings.ToLower and strings.Contains of the standard library, on ASCII text
--   Discovery   vcd.go: getInstancesInInstanceGroup, pollVM, getVMFromVAppHREF
--   Debug       debug.go: summary, instanceSource, phaseSince; Debug/View the list of instances, and
--               Debug/Api what the handlers show
--   Metrics     store.go: UpdateMetrics
--   Backoff, Semaphore   parameters: github.com/cenkalti/backoff and golang.org/x/sync/semaphore
--   Tests       the theorems at concrete states
--
-- How code becomes definitions: a Go map is an association list with one entry per key, a pointer
-- to an instance is a number that the store's heap maps to the instance, a `*time.Time` is an
-- option, and times and durations are natural numbers of nanoseconds. What `time.Now()` returns is
-- an argument `now`; one step of the model sees one time. A method that holds a mutex for its whole
-- run is one atomic step; a goroutine is an element of the list `running`, and its start and end are
-- separate steps, so that other steps may come between; its end, from the return of its work in vCD
-- on, is one step. What vCD answers is an argument of the step that asks. The package of
-- exponential backoffs and that of semaphores are parameters, whose documented behaviour is a
-- hypothesis where a theorem needs it. Loops are structural recursion, so nothing runs on fuel; a
-- loop that repeats a call of vCD recurses on the list of the answers to come.
--
-- Not modelled: logs, the counters and histograms of metrics.go, HTTP, JSON and HTML (web/, the
-- template functions of debug.go), what the SDK does inside a call of vCD, when the backoff package
-- ends the repetition of a call (how often a safeVCDCall repeats its request is an argument, while a
-- singleVCDCall does not), what opLimiter.drain waits for (how it ends is an argument of Shutdown),
-- and the command line (cmd/).
pub mod Base
pub mod Instance
pub mod Store
pub mod Backoff
pub mod Throttle
pub mod Breaker
pub mod Semaphore
pub mod Limiter
pub mod Reconciler
pub mod Session
pub mod Call
pub mod Provider
pub mod Config
pub mod Deletion
pub mod Debug
pub mod Waits
pub mod Discovery
pub mod Text
pub mod Names
pub mod Vcd
pub mod Creation
pub mod Metrics
pub mod Tests
