-- ===== src/Machine.antt =====
-- fsm.go, options.go and callbacks.go: the machine, its options and its construction.
use go_fsm.Base.{
  ℕ, String, Bool, true, false, not, Option, none, some, List, [], ◌∷◌, ◌==◌, string_eq,
  if◌then◌else◌, Result, ok, err,
}
use go_fsm.Base.Int.{ℤ, pos}
use go_fsm.Base.Lists.{keep}
use go_fsm.Base.Sort.{sort}
use go_fsm.Base.Text.{str_leb}
use go_fsm.Context.{Ctx, CtxError, background}
use go_fsm.Hooks.Execute.{HookCall}
use go_fsm.Transitions.Config.{StateMap, Config, ConfigError, new_config}
use go_fsm.Transitions.Config
pub mod Moves
pub mod Atomic
pub mod Steps
pub mod Answers
pub mod Reach
pub mod Chain
pub mod Rivals
pub mod Queries
pub mod Construct
pub mod Wired
pub mod Examples

-- transitionDB
pub record TransitionDb : Type 0 where
  pub has_state : String → Bool
  pub get_all_states : List String
  pub is_transition_allowed : String → String → Bool

-- transitions.Config as a transitionDB.
abbrev pub config_db : Config → TransitionDb
config_db c = record {
  has_state = Config.has_state c;
  get_all_states = Config.get_all_states c;
  is_transition_allowed = Config.is_transition_allowed c;
}

-- CallbackExecutor, over the errors `E` of its guards and the world `W`.
pub record Executor (E W : Type 0) : Type 0 where
  pub execute_pre_transition_hooks : HookCall → W → Option E × W
  pub execute_post_transition_hooks : HookCall → W → W

pub data Logger : Type 0 where
  default_logger : Logger
  given_logger : ℕ → Logger
  of_handler : ℕ → Logger

-- Machine, without its mutex. `state` is the atomic.Value, `none` before the first Store.
pub record Machine (E W : Type 0) : Type 0 where
  pub state : Option String
  pub transitions : TransitionDb
  pub callbacks : Option (Executor E W)
  pub logger : Logger
  pub broadcast_timeout : ℤ

pub data OptionError : Type 0 where
  nil_logger : OptionError
  nil_handler : OptionError

pub data MachineError (E : Type 0) : Type 0 where
  nil_transitions : MachineError E
  initial_undefined : String → MachineError E
  option_failed : OptionError → MachineError E
  table_refused : ConfigError → MachineError E
  set_state_canceled : CtxError → MachineError E
  state_undefined : String → MachineError E
  transition_canceled : CtxError → MachineError E
  transition_not_allowed : String → String → MachineError E
  current_state_incorrect : String → String → String → MachineError E
  rejected : E → MachineError E

-- The options of options.go; `none` for a nil argument.
pub data MachineOption (E W : Type 0) : Type 0 where
  with_callback_registry : Option (Executor E W) → MachineOption E W
  with_logger : Option ℕ → MachineOption E W
  with_log_handler : Option ℕ → MachineOption E W
  with_broadcast_timeout : ℤ → MachineOption E W

module _ {E W : Type 0} where
  unfoldable pub apply_option : MachineOption E W → Machine E W → Result OptionError (Machine E W)
  apply_option (with_callback_registry executor) m = ok (record m { callbacks = executor })
  apply_option (with_logger none) m = err nil_logger
  apply_option (with_logger (some l)) m = ok (record m { logger = given_logger l })
  apply_option (with_log_handler none) m = err nil_handler
  apply_option (with_log_handler (some h)) m = ok (record m { logger = of_handler h })
  apply_option (with_broadcast_timeout d) m = ok (record m { broadcast_timeout = d })

  -- The loop over the options in New.
  unfoldable pub apply_options :
      List (MachineOption E W) → Machine E W → Result (MachineError E) (Machine E W)
  unfolding apply_option
  apply_options [] m = ok m
  apply_options (opt ∷ opts) m = elim (apply_option opt m) [
    | ok m' ↦ apply_options opts m'
    | err e ↦ err (option_failed e)
  ]

  -- The machine that New configures; durations are in nanoseconds.
  abbrev pub initial_machine : String → TransitionDb → Machine E W
  initial_machine initial_state db = record {
    state = some initial_state;
    transitions = db;
    callbacks = none;
    logger = default_logger;
    broadcast_timeout = pos 100_000_000;
  }

  -- New
  unfoldable pub new_machine :
      String
      → Option TransitionDb
      → List (MachineOption E W)
      → Result (MachineError E) (Machine E W)
  unfolding apply_options
  new_machine initial_state none opts = err nil_transitions
  new_machine initial_state (some db) opts =
      if not (db.has_state initial_state)
      then err (initial_undefined initial_state)
      else apply_options opts (initial_machine initial_state db)

  -- NewSimple
  unfoldable pub new_simple :
      String → StateMap → List (MachineOption E W) → Result (MachineError E) (Machine E W)
  unfolding new_machine
  new_simple initial_state allowed_transitions opts = elim (new_config allowed_transitions) [
    | ok trans ↦ new_machine initial_state (some (config_db trans)) opts
    | err e ↦ err (table_refused e)
  ]
