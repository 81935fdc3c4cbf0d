-- ===== src/Json.antt =====
-- json.go: the state of a machine that is written to JSON, and the machine that is built from one.
-- `encoding/json` maps the bytes to a PersistentState and back; the definitions start from there.
pub mod Restore
pub mod Examples
use go_fsm.Base.{
  String, Bool, true, false, not, Option, none, some, List, [], ◌∷◌, ◌==◌, string_eq, if◌then◌else◌,
  Result, ok, err,
}
use go_fsm.Hooks.Registry.{Registry}
use go_fsm.Hooks.Registry.Listing.{HookInfo, get_hooks}
use go_fsm.Transitions.Config.{StateMap, Config, ConfigError, new_config, has_state}
use go_fsm.Machine.{Machine, MachineError, MachineOption, config_db, new_machine}
use go_fsm.Machine.Moves.{get_state}

-- persistentState
pub record PersistentState : Type 0 where
  pub state : String
  pub transitions : StateMap
  pub hooks : List HookInfo

pub data JsonError (E : Type 0) : Type 0 where
  empty_state : JsonError E
  empty_transitions : JsonError E
  invalid_transitions : ConfigError → JsonError E
  state_not_defined : String → JsonError E
  machine_failed : MachineError E → JsonError E
  no_serializer : JsonError E

unfoldable pub is_nil : StateMap → Bool
is_nil [] = true
is_nil (_ ∷ _) = false

-- What MarshalJSON saves of the executor's hooks: there may be none, or one without GetHooks.
abbrev pub saved_hooks : Option (Option Registry) → List HookInfo
saved_hooks none = []
saved_hooks (some none) = []
saved_hooks (some (some r)) = get_hooks r

module _ {E W : Type 0} where
  -- NewFromJSON, from the checks of the transitions' table on.
  unfoldable pub restore_over :
      String
      → List (MachineOption E W)
      → Result ConfigError Config
      → Result (JsonError E) (Machine E W)
  restore_over state opts (err e) = err (invalid_transitions e)
  restore_over state opts (ok trans_config) =
      if not (has_state trans_config state)
      then err (state_not_defined state)
      else elim (new_machine state (some (config_db trans_config)) opts) [
        | err e ↦ err (machine_failed e)
        | ok m ↦ ok m
      ]

  -- NewFromJSON, after json.Unmarshal. The hooks of the state are dropped.
  unfoldable pub restore :
      PersistentState → List (MachineOption E W) → Result (JsonError E) (Machine E W)
  unfolding is_nil restore_over
  restore p opts =
      if p.state == ""
      then err empty_state
      else if is_nil p.transitions
      then err empty_transitions
      else restore_over p.state opts (new_config p.transitions)

  -- MarshalJSON, before json.Marshal. `as_map` is what the table's AsMap answers, if it has that
  -- method; `hooks` what the executor's GetHooks answers, or none.
  unfoldable pub snapshot :
      Option StateMap → List HookInfo → Machine E W → Result (JsonError E) PersistentState
  snapshot none hooks m = err no_serializer
  snapshot (some transitions_map) hooks m =
      ok (record { state = get_state m; transitions = transitions_map; hooks = hooks })

  -- MarshalJSON, before json.Marshal, with the executor as its optional interface shows it.
  unfoldable pub marshal_machine :
      Option StateMap
      → Option (Option Registry)
      → Machine E W
      → Result (JsonError E) PersistentState
  unfolding snapshot
  marshal_machine transitions executor m = snapshot transitions (saved_hooks executor) m
