-- ===== src/Example.antt =====
-- example/main.go: the example program, over the packages.
pub mod Runs
pub mod Examples
use go_fsm.Base.{
  ℕ, String, Bool, true, false, Option, none, some, List, [], ◌∷◌, ◌++◌, ◌==◌, nat_eq,
  if◌then◌else◌, Result, ok, err,
}
use go_fsm.Context.{Ctx, CtxError, background}
use go_fsm.Hooks.Registry.{StateTable, Registry}
use go_fsm.Hooks.Registry.Options.{
  RegistryOption, RegistryOptionError, with_logger, with_transitions, new_registry_with,
}
use go_fsm.Hooks.Execute.{HookCall, GuardOutcome, ActionOutcome, Callbacks, GuardError}
use go_fsm.Transitions.Config.{Config}
use go_fsm.Transitions.Config
use go_fsm.Machine.{Machine, MachineError, config_db, new_machine, with_callback_registry}
use go_fsm.Machine
use go_fsm.Machine.Moves.{Outcome, get_state, transition, transition_with_context}
use go_fsm.Machine.Wired.{registry_executor}
use go_fsm.Subscribe.Setup.{Host, registrar, SubscribeError, prepare}

-- What the hooks run in: the registry, the machine's fields for Subscribe, and what lies outside,
-- which Broadcast and Subscribe are about: the manager, the channels and the goroutines.
pub record World (V : Type 0) : Type 0 where
  pub registry : Registry
  pub host : Host
  pub outside : V

pub data ExampleError : Type 0 where
  registry_failed : RegistryOptionError → ExampleError
  machine_failed : MachineError GuardError → ExampleError
  subscribe_failed : SubscribeError → ExampleError
  greeting_canceled : CtxError → ExampleError
  booting_failed : MachineError GuardError → ExampleError
  running_failed : MachineError GuardError → ExampleError

abbrev pub state_table : Config → StateTable
state_table c = record { has_state = Config.has_state c; get_all_states = Config.get_all_states c }

-- The machine's fields for Subscribe; the name of its hook is of its address.
abbrev pub new_host : String → Host
new_host hook_name = record {
  callbacks = registrar;
  hook_name = hook_name;
  broadcast_hook = 0;
  state_chan_setup = none;
  broadcast_manager = none;
}

-- The `select` of Subscribe, on a channel with room: where the context is done, either case may be
-- chosen.
abbrev pub greeted : Option CtxError → Bool → Option CtxError
greeted none sends = none
greeted (some e) true = none
greeted (some e) false = some e

abbrev pub Running : Type 0 → Type 0
Running V = Machine GuardError (World V) × World V

module _ {V : Type 0} where
  -- The end of run: two transitions, each with the context as it finds it, and their errors.
  unfoldable pub after_running : Outcome GuardError (World V) → Result ExampleError (Running V)
  after_running (m, w, some e) = err (running_failed e)
  after_running (m, w, none) = ok (m, w)

  unfoldable pub after_booting :
      Ctx → Outcome GuardError (World V) → Result ExampleError (Running V)
  unfolding after_running
  after_booting running (m, w, some e) = err (booting_failed e)
  after_booting running (m, w, none) = after_running (transition_with_context m running "Running" w)

  unfoldable pub bring_up : Ctx → Ctx → Running V → Result ExampleError (Running V)
  unfolding after_booting
  bring_up booting running (m, w) =
      after_booting running (transition_with_context m booting "Booting" w)

  unfoldable pub after_prepare :
      Option CtxError
      → Ctx
      → Ctx
      → Running V
      → (Host × Registry) × Option SubscribeError
      → Result ExampleError (Running V)
  unfolding bring_up
  after_prepare canceled booting running r (prepared, some e) = err (subscribe_failed e)
  after_prepare (some e) booting running r (prepared, none) = err (greeting_canceled e)
  after_prepare none booting running (m, w) ((host, registry), none) =
      bring_up booting running (m, record w { host = host; registry = registry })

  -- run, from Subscribe on.
  unfoldable pub subscribe_and_bring_up :
      Ctx → Bool → Ctx → Ctx → Running V → Result ExampleError (Running V)
  unfolding after_prepare
  subscribe_and_bring_up ctx sends booting running (m, w) =
      after_prepare (greeted ctx.error sends) booting running (m, w)
        (prepare (some ctx) w.host w.registry)

  -- run, over transitions.Typical, a logger and what the functions of hooks do: the registry gets one,
  -- BroadcastHook. The context is given
  -- as Subscribe and each of the transitions finds it.
  unfoldable pub example_run :
      Callbacks (World V)
      → Config
      → String
      → ℕ
      → Ctx
      → Bool
      → Ctx
      → Ctx
      → V
      → Result ExampleError (Running V)
  unfolding subscribe_and_bring_up
  example_run hooks typical hook_name logger ctx sends booting running outside =
      let registry_opts =
        with_logger (some logger) ∷ with_transitions (some (state_table typical)) ∷ [] in
      elim (new_registry_with registry_opts) [
        | err e ↦ err (registry_failed e)
        | ok registry ↦
            let machine_opts =
              Machine.with_logger (some logger)
              ∷ with_callback_registry
                  (some (registry_executor hooks (λ (w : World V). w.registry)))
              ∷ [] in
            elim (new_machine "New" (some (config_db typical)) machine_opts) [
              | err e ↦ err (machine_failed e)
              | ok m ↦
                  subscribe_and_bring_up ctx sends booting running (
                    m,
                    record { registry = registry; host = new_host hook_name; outside = outside },
                  )
            ]
      ]

  -- A transition whose error is logged only.
  abbrev pub logged : Outcome GuardError (World V) → Running V
  logged (m, w, error) = (m, w)

  abbrev pub then_stop : Running V → Running V
  then_stop (m, w) = logged (transition m "Stopped" w)

  -- main, after the signal.
  unfoldable pub shut_down : Running V → Running V
  shut_down (m, w) = then_stop (logged (transition m "Stopping" w))
