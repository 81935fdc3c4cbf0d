-- ===== src/Lib.antt =====
-- go-fsm: a finite state machine with a validated transition table and hooks that can veto or
-- observe its transitions.
--
-- The program's parts. transitions.New (transitions/config.go) validates a map from states to
-- their targets and builds a lookup index. hooks.Registry (hooks/registry.go) keeps named guards
-- and actions, indexed by transition or, with a wildcard, matched as it runs, and executes them
-- in order of registration with panics recovered. fsm.Machine (fsm.go) holds the current state: a
-- transition asks the table, then the registry's guards, stores the state and runs the registry's
-- actions; SetState skips the table's edges and the guards. broadcast.Manager (hooks/broadcast)
-- sends states to subscribers' channels. Machine.Subscribe joins them: its first call makes a
-- manager and registers the manager's BroadcastHook as an action for every transition; each call
-- then adds a subscription and sends the current state.
--
-- The files.
--   Base: the helpers: tests and results (Tests), equality of keys (Keys), lists (Lists), maps as
--     association lists (Maps), sorting (Sort), the byte order of strings (Text), integers (Int).
--   Transitions/Names: validateStateName, with strings.TrimSpace by code point; Valid says which
--     names it accepts.
--   Transitions/Config: New, buildIndex and the queries of transitions/config.go. A Go map is an
--     association list in one order of iteration; where a result needs that no key is repeated,
--     it says so. Targets and Sources follow the two loops; Accept, Lookup and States are about
--     what is accepted, what the index answers and what the listings hold. Encoding: MustNew,
--     MarshalJSON and UnmarshalJSON, on the map that encoding/json reads or writes.
--   Transitions/Common: Typical of transitions/common.go.
--   Context: what the program reads of a context.
--   Hooks/Entry, Hooks/Registry: the registry's record and one function per method of
--     hooks/registry.go. An entry has an address, since RemoveHook compares pointers.
--     Registry/Represents says which list of hooks the indexes stand for; Register and Registered
--     (with Keys and Place) and Remove (with Erase) follow it through the operations; Removal
--     holds RemoveHook and Clear, Listing GetHooks, Options hooks/options.go.
--   Hooks/Execute: the two executors and the recovery of panics. A callback is a number, and the
--     client's code is a function of it, of the call and of a world that it may change.
--   Hooks/Fifo, Hooks/Outcome, Hooks/Contract: which hooks run, what running them comes to, and
--     the registry against a specification without indexes, over whole histories of calls
--     (Contract/Accepts, Simulation, History, Listed).
--   Machine: the record, the options and the constructors of fsm.go and options.go.
--     Machine/Moves: its methods. The mutex makes each method one step, from a machine and a
--     world to both and the method's error; a history of calls from several goroutines is a list
--     of such steps. A hook is told what the lock-free GetState answers while it runs.
--   Machine/Atomic, Steps, Answers, Reach, Chain, Rivals, Queries, Construct, Wired: the results
--     on one call, on the steps a machine can take, on what each call does and returns, on states
--     reached, on what observers see, on compare-and-swap, on listings, on construction, and on a
--     machine with a registry.
--   Broadcast/Subscriptions: hooks/broadcast/options.go, and GetStateChan, UnsubscribeAll and
--     removal of hooks/broadcast/manager.go. Channels and subscriptions are numbers; the manager
--     keeps which channels it closed. Sound, Histories and Ending follow the operations.
--   Broadcast/Delivery: one call of Broadcast, under its lock. Go channels have a buffer and
--     receivers that wait; the loop, the goroutines' selects, receivers and ending contexts are
--     events in any order. Happens is the relation of its events, by whose cases the results go.
--     Once, Effects, Follows and Guarantee are about what it sends and how it ends, Bounds about
--     how many steps it takes, Progress about its going on when subscribers have left, Releases
--     about UnsubscribeAll while it is under way, Capacity about how full it makes a channel.
--   Subscribe/Setup: Subscribe of fsm.go up to its lock, with sync.Once and the registration.
--     Subscribe/Observed: what the hook that it registers is given, over all calls on the
--     machine. Subscribe/System: from there on, with all that goes on around it. A step is what
--     one goroutine does between two points where it can wait: a call of Subscribe takes the read
--     lock and comes to its select, the select sends or gives up, a transition stores a state and
--     comes to its hooks, Broadcast starts, has one of the events of Broadcast/Delivery and
--     returns, and the AfterFunc of an ended subscription removes it. A run is a list of steps,
--     in any order that the locks admit.
--   Subscribe/Advances: the relation of the steps, by whose cases the results go.
--     Subscribe/Alone, Served, Kept, Turns, Stages, Gapless, Behind: how far a system is with one
--     subscriber, that every step keeps to it, and what the subscriber gets in the end and at any
--     moment. Subscribe/Progress is about subscribers who receive, Subscribe/Stalled about a call
--     without a channel, Subscribe/Capacity about the room in channels.
--   Errors: the sentinels of errors.go, transitions/errors.go and hooks/errors.go and those that
--     each error wraps; Errors/Methods, Decoding and Registering say what errors.Is finds.
--   Example: example/main.go, over any code of the hooks' functions: the one that it registers,
--     BroadcastHook, calls Broadcast, which Broadcast and Subscribe are about. Example/Runs says
--     what run and the end of main come to.
--   Json: json.go between its calls of encoding/json: the persistent state of a machine, and the
--     machine of a persistent state. Json/Restore is about which states are restored and the
--     round trip.
--   Transitions/Examples, Hooks/Examples, Machine/Examples, Broadcast/Examples, Json/Examples,
--     Subscribe/Examples, Subscribe/SetupExamples, Errors/Examples, Example/Examples: runs on
--     small inputs.
--
-- Every function is structurally recursive, so that no fuel is needed. Errors are constructors
-- that carry what the message shows. Not modelled: logging, the texts of errors, the bytes of
-- JSON, UnsubscribeAll while a broadcast is under way in the system of Subscribe (the machine
-- never calls it), a registry that several machines share in that system, and a panic of an
-- executor that is not a registry. A hook that calls a locking method of the machine that runs it
-- blocks in the program, and is not a hook of the model.
pub mod Base
pub mod Transitions
pub mod Context
pub mod Hooks
pub mod Machine
pub mod Broadcast
pub mod Json
pub mod Subscribe
pub mod Errors
pub mod Example
