-- ===== src/Lib.antt =====
-- OCIHood provisions one compute instance per account and target in Oracle's cloud: it reconciles what
-- the provider shows with a local state, waits for capacity, launches with a stable retry token, and
-- follows the instance until it runs. This library models the core of the program, above all
-- what has to hold when it is interrupted and run again.
--
-- The parts, and the files that model them (paths in the repository, then files here):
--   internal/reconcile/reconcile.go   Reconcile.antt: Decide, ownership tags, attempts; Reconcile/Identity
--                                     the target's digest; Safety, Order, Ownership, Attempts the proofs
--   internal/state/state.go           State.antt the record; State/Disk the file system; State/Store the
--                                     store; Durability, RoundTrip, Locking, Sessions the proofs
--   internal/launch/launch.go         Launch.antt data and delays; Launch/Run the launch loop and the wait
--                                     for an address; Launch/Poll the lifecycle loop and Run itself;
--                                     Backoff, Budget, Effects, Finish, Lookup the proofs
--   internal/launch/runtime.go        Launch/Store
--   internal/capacity/capacity.go     Capacity.antt data and delays; Capacity/Watch the watcher
--   internal/capacity/runtime.go      Capacity/Store
--   internal/config/config.go         Config.antt data and overlay; Config/Validate, Config/Resolve,
--                                     Config/Evaluate the policy; Ranges and Safety the proofs
--   internal/breaker/breaker.go       Breaker.antt; Breaker/Transparency the proofs
--   internal/capacity/breaker.go      Capacity/Guarded
--   internal/launch/breaker.go        Launch/Guarded
--   internal/discovery/discovery.go   Discovery.antt data; Discovery/Pages the walk through a listing;
--                                     Version, Sorting, Select the selections; Discover the whole;
--                                     Walk, Order, Unique, Tasks, Best, Newest, Fits, Sound, Ends,
--                                     Classified the proofs
--   internal/provider/oci/discovery   Oci.antt and Oci/Resources
--   internal/provider/oci/launch      Oci/Compute; Alive, Owned, Kinds the proofs
--   internal/provider/oci/capacity    Oci/Reports
--   internal/provider/oci/auth        Oci/Session
--   internal/provisioner              App/Prepare (`execute`)
--   internal/notification             Notification.antt; Notification/Text the proofs
--   internal/app/app.go               App/Persist: reconcileAndPersist, newAttemptAndPersist,
--                                     waitingState; App/Plan: Plan after the preparation; App/Prepare:
--                                     resolve, bootstrap, prepare, Images; App/Run the loop of Run;
--                                     App/Runner Run around it; Reconciled, WriteAhead, Resume, Asked,
--                                     Turns, Renew, Rounds, Granted, Exclusive, Phases,
--                                     Standing, Announced the proofs
--   internal/cli/cli.go               Cli/Flags, Cli/Render, Cli/Outcome, Cli/Commands; Cli/Codes the
--                                     proofs
--   cmd/ocihood/main.go               Wiring.antt: what is handed to the breaker, the watcher and the
--                                     orchestrator; Wiring/Accepts the proofs
-- Shared by all: Base (numbers, texts, lists, integers), Errors (Go's errors as one data type, with
-- errors.Is and errors.As), Io (actions on a world that may fail, with the deferred call), Time.
--
-- How the parts interact: App/Persist holds the store's lock while it loads the state, decides
-- (Reconcile), and saves the decision (State/Store). The watcher and the orchestrator then run over
-- the answers of their environment and record their progress through Capacity/Store and Launch/Store,
-- which are sessions of the same store. App/Runner joins the parts: it prepares (App/Prepare, with
-- Discovery behind it), asks the policy, takes the run's lock, reconciles, and then loops through
-- watching and launching. Cli/Commands turns flags into its request and its result into an exit code.
--
-- How the code is modelled:
--   Actions on the store pass a disk along; a function of the disk says which file operations fail.
--   A file's content is what the JSON decoder makes of it, and a document decodes to the state that was
--   encoded; the encoder refuses a time whose year has more than four digits. Locks are the advisory
--   ones: a list of the paths that are held. The name that the system chooses for a temporary file is
--   part of the disk; where a theorem needs it to be new, it says so.
--   The loops of the watcher and the orchestrator take what provider, store, sleeper, clock and context
--   answer as a list of rounds, and give the list of what they asked for. Where the rounds run out the
--   result is `none`: the loop still goes on.
--   Integers and durations are 64 bits wide, with the wrap-around of doubling and increment written
--   out. Points in time are nanoseconds from the zero time. Floating-point numbers are a parameter, a
--   record of the operations that the jitter uses.
--   The recursion of the delays is on the number of retries, which is the number of rounds of Go's loop.
--   The circuit breaker of the library gobreaker is a parameter, by what `Do` asks of it.
--   The adapters of the provider and the discovery are actions on a world that the SDK's calls, which
--   are parameters, change. The pages of a listing are bounded by `fuel`: `none` is a walk that still
--   goes on. Discovery/Ends shows which bound is enough.
--   A run's loop takes what watching, launching, the clock and the random source come to as a list of
--   rounds, over one disk; notifications, watches and launches are recorded as effects.
--   Paths are those of Unix: Base/Paths has filepath.Join with its cleaning.
--   SHA-256 is a parameter. strings.ToLower is modelled on ASCII letters. Where Go visits a map in any
--   order, the model visits a list.
--
-- Not modelled: the YAML decoder and the printing of configurations (library calls); the parser of the
-- command line, its help, the JSON encoder and the tab writer; the setters of the runner and its
-- goroutine around a notification; the signals, the logger and the exit of the main program; logging,
-- which changes no state.
pub mod Base
pub mod Errors
pub mod Io
pub mod Time
pub mod Reconcile
pub mod State
pub mod Breaker
pub mod Launch
pub mod Capacity
pub mod Discovery
pub mod Oci
pub mod Notification
pub mod Config
pub mod App
pub mod Wiring
pub mod Cli
