-- ===== src/Errors/Examples.antt =====
-- The results about errors, applied to small errors.
use go_fsm.Base.{ℕ, ◌≡◌, refl, true, false, string_eq, some, List, [], ◌∷◌}
use go_fsm.Base.Lists.{contains}
use go_fsm.Base.Maps.{has_key}
use go_fsm.Context.{background}
use go_fsm.Hooks.Entry.{post}
use go_fsm.Hooks.Registry.{HookConfig, new_registry, register_hook}
use go_fsm.Hooks.Execute.{GuardError}
use go_fsm.Hooks.Examples.{calls, logging, open_table}
use go_fsm.Transitions.Config.{new_config}
use go_fsm.Transitions.Examples.{traffic_config}
use go_fsm.Machine.{Machine, initial_machine, config_db}
use go_fsm.Machine.Moves.{transition_if_current_state_with_context}
use go_fsm.Machine.Wired.{executor}
use go_fsm.Machine.Examples.{opts}
use go_fsm.Json.{PersistentState, restore, is_nil}
use go_fsm.Errors.{
  Sentinel, fails_with, wraps_guard, err_current_state_incorrect, err_invalid_state_transition,
  err_callback_failed, err_empty_state, err_empty_transitions, err_invalid_json_transitions,
}
use go_fsm.Errors.Methods.{IsForeign, transition_if_current_state-fails_with}
use go_fsm.Errors.Decoding.{is_err, result_fails_with, restore-fails_with}
use go_fsm.Errors.Registering.{TellsOf, hook_fails_with, register_hook-fails_with}

-- Client errors that wrap nothing.
abbrev plain : ℕ → List Sentinel
plain n = []

plain-IsForeign : IsForeign plain
unfolding contains
plain-IsForeign n = (refl, refl)

abbrev light : Machine GuardError (List ℕ)
light = record (initial_machine "green" (config_db traffic_config)) {
  callbacks = some (executor logging open_table (λ w. calls));
}

transition_if_current_state-fails_with_example :
    let error = (transition_if_current_state_with_context light background "red" "yellow" []).2 in
    (fails_with (wraps_guard plain) error err_current_state_incorrect ≡ true)
    × (fails_with (wraps_guard plain) error err_invalid_state_transition ≡ false)
    × (fails_with (wraps_guard plain) error err_callback_failed ≡ false)
transition_if_current_state-fails_with_example =
    transition_if_current_state-fails_with plain plain-IsForeign light background "red" "yellow" []

abbrev taken : HookConfig
taken = record { name = "named"; from = "*" ∷ []; to = "b" ∷ []; func = some 2 }

register_hook-fails_with_example :
    TellsOf taken
      (has_key taken.name (new_registry open_table).hooks)
      (hook_fails_with (register_hook post (new_registry open_table) taken).1)
register_hook-fails_with_example = register_hook-fails_with post (new_registry open_table) taken

abbrev unsourced : PersistentState
unsourced = record { state = "green"; transitions = ("green", "red" ∷ []) ∷ []; hooks = [] }

restore-fails_with_example :
    (result_fails_with plain (restore unsourced opts) err_empty_state ≡ false)
    × (result_fails_with plain (restore unsourced opts) err_empty_transitions ≡ false)
    × (result_fails_with plain (restore unsourced opts) err_invalid_json_transitions
        ≡ is_err (new_config unsourced.transitions))
unfolding is_nil
restore-fails_with_example = restore-fails_with plain unsourced opts
