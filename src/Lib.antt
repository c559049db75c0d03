-- ===== src/Lib.antt =====
-- The Apollo configuration centre plugin for the Lynx framework (Go).
--
-- The plugin reads configuration values from an Apollo server over HTTP, keeps them in a cache, and
-- puts a circuit breaker and a retry manager before the requests. The framework drives its life:
-- InitializeResources loads and validates the configuration and builds the components, the startup
-- builds the client and goes through phases that the framework carries out, the cleanup releases it
-- all. A call of GetConfigValue runs DoWithRetry, each of whose attempts runs the breaker's Do, in
-- which the cache and then the client are asked. The health check is a call of GetConfigValue under
-- retries of its own. A watcher polls the server in a loop, reloads a namespace that has changed, and
-- hands the reload over a channel; the plugin's dispatch takes it there and evicts the keys that it
-- names from the cache. A loop over a Go map is a loop over a list of its entries in some order.
--
-- Files and the code that they model:
--   Base, Base/*            bytes, integers, floats and lists that the others share
--   Conf                    conf/defaults.go and the message of conf/apollo.pb.go
--   Errors, Errors/*        errors.go: codes, ApolloError, WrapError, the error classes
--   Validator, Validator/*  validator.go: Result (ValidationResult), Checks (Validate and its checks),
--                           Rules (what it asks, in conditions), Sound and Errors (proofs)
--   Resilience/Machine      the clock and the sleeps that resilience.go takes from the runtime
--   Resilience/Breaker      resilience.go, CircuitBreaker: before_attempt, record_failure, and so on;
--                           Guard is Do; Window, Events, Invariant, History and Gate are proofs
--   Resilience/Retry        resilience.go, RetryManager: calculate_backoff, do_with_retry and
--                           do_with_retry_context; Backoff and Outcome are proofs
--   Metrics                 metrics.go: the collectors, their registration, and the increments as a list
--                           of samples; Metrics/Registration: proofs
--   Client, Client/*        client.go: Servers (choice of a config server), State (the client, and the
--                           interface of the network), Requests (the methods); Laws, Lines, Values,
--                           Sends: proofs
--   Watcher, Watcher/*      watcher_adapter.go: State (ApolloConfigWatcher, where its loop stands, Start,
--                           Stop and Next), Loop (a step of watchLoop), System (a step of anyone);
--                           Delivery, Stopping, Round and Restart are proofs
--   Plugin/State            apollo.go: the plugin's fields, checkInitialized and the getters
--   Plugin/Setup            apollo.go: InitializeResources, and the interface of the framework
--   Plugin/Startup          lifecycle_context.go and apollo.go: startupTasksContext
--   Plugin/Cleanup          cleanup.go and lifecycle_context.go: cleanupTasksContext
--   Plugin/Values           config.go: GetConfigValue and the cache
--   Plugin/Sources          config.go: GetConfig, GetConfigSources and GetConfigWatchTargets
--   Plugin/Loading          config.go: Load and Watch of the source, and WatchControlPlaneConfig
--   Plugin/Watching         watchers.go: ConfigWatcher, WatchConfig in two halves, the dispatch, what a
--                           change evicts, the retry; Watching/Handle: Start and Stop of one watcher;
--                           Watching/Changes, Sharing, Silence, Order: proofs
--   Plugin/Health           health.go: CheckHealth; Health/Verdict is proofs
--   Plugin/Entry            plug.go, control_plane.go, and the hooks of apollo.go, lifecycle_context.go
--                           and cleanup.go that the framework calls
--   Plugin/Entries, Cache, Reads, Phases, Life, Reload, Targets, Keeps, Calls, Served, FirstRead,
--     Propagation, Provenance, Traffic  proofs
--   Locks                   the mutexes, the breaker's channel, the sync.Once values and the wait groups,
--                           and threads that take them; Locks/Code, Life, Operations: what each
--                           operation does with them and with shared fields; Locks/System: a step of
--                           anyone; Locks/Order: the order of the locks and the guards of the fields;
--                           Locks/Startup: a startup that is called back; Fits, Checks, Invariant,
--                           Progress, Return, Separate, Exclusion, Races: proofs
--   Tests, Tests/*          runs of the code, and theorems at concrete inputs
--
-- A definition has the name of its function in snake case. Texts are lists of bytes. A pointer
-- that may be nil is an Option. A method that changes its receiver takes the old one and
-- returns the new one; where the network or the clock comes in, the world is passed on beside
-- it. What is not in this repository is the field of an interface: Machine (clock, sleep,
-- conversion of floats out of range), Http (requests, JSON, url.QueryEscape), Registry (of
-- Prometheus, which panics on a name that it has), Starter (lynx.StartControlPlaneWatcher),
-- Externals (url.Parse, AsDuration, printing), Framework (the base plugin, the configuration,
-- the control plane, the plugin manager, the context). Where a bound counts requests, a measure
-- of the world is a parameter (Meter), which a request raises by one.
--
-- Integers are exact, but for the seconds of the validator, which wrap at 64 bits as in the
-- code, and the conversion of a backoff to a duration, which the machine decides out of range.
-- A float is an exact fraction or NaN or infinite; the failure rate is compared without
-- rounding. The loop of DoWithRetry recurs on the number of attempts that are left; fuel is
-- used only to print a number in decimal, and the number itself plus one is enough, since each
-- step divides by ten.
--
-- The watch loop is a step function on where it stands; a select with more than one case ready
-- takes the case that a Boolean says. Its steps and those of the goroutines that start, stop
-- and read the watcher make a step relation, over which the proofs go by induction. The bound
-- on the steps that the loop may take after Stop is a function of where it stands
-- (Watcher/Stopping).
--
-- Fields that the code does not have log what it did: of a watcher's system the reloads that the loop
-- got, those that it sent and those that were received; of the plugin the watchers that a cleanup
-- stopped and the clients that it or a failed startup closed. Nothing else depends on them.
--
-- Locks/* is a view of its own of the same code: of an operation there is left which lock it
-- takes and gives back, which goroutines it awaits and which shared field it reads or writes, for
-- each way through its branches, and threads that run such operations make a step relation. A read
-- or write where the code does not have the lock of the field is an action of its own (peek, poke);
-- Locks/Order names the lock of every field, and which are accessed without it. A
-- reader of an RWMutex gets in there while a writer waits; that a thread can go on is said in a
-- sense for which this makes no difference, that nobody has the lock that it asks for. A name
-- that ends in _code is the view of the function before it. In the other modules a method runs in
-- one piece but for the interleavings named below.
--
-- Not modelled: the interleaving of the effects of methods but for the watch loop, for the two
-- halves of the breaker's Do (Breaker/Events) and of WatchConfig (Watching/Sharing), for a
-- delivery in the middle of a read (Watching/Changes), for Stop and the dispatch
-- (Watching/Silence) and for Start and Stop of a ConfigWatcher (Watching/Handle); of calls of the
-- framework back into the plugin during the startup anything but their locks (Locks/Startup);
-- logging; the help texts and buckets of the collectors; the recovery from panics in the watch
-- goroutines; callbacks of a ConfigWatcher other than those that WatchConfig sets; the generated
-- accessors of conf/apollo.pb.go.
pub mod Base
pub mod Conf
pub mod Errors
pub mod Validator
pub mod Resilience
pub mod Metrics
pub mod Client
pub mod Watcher
pub mod Plugin
pub mod Locks
pub mod Tests
