-- ===== src/Errors.antt =====
-- errors.go, transitions/errors.go and hooks/errors.go: the sentinels, and what `errors.Is` finds in
-- the errors that the packages return. An error's tree is the list of the sentinels in it.
pub mod Methods
pub mod Decoding
pub mod Registering
pub mod Examples
use go_fsm.Base.{
  ℕ, ◌≡◌, ◌∙◌, ◌↔◌, refl, sym, ap, Bool, true, false, Option, none, some, List, [], ◌∷◌, ◌++◌, Eq,
  if◌then◌else◌, ◌==◌, nat_eq, beq→eq, beq_refl,
}
use go_fsm.Base.Lists.{contains}
use go_fsm.Context.{CtxError, canceled, deadline_exceeded}
use go_fsm.Transitions.Names.{NameError}
use go_fsm.Transitions.Config.{
  ConfigIssue, invalid_source, invalid_destination, undefined_destinations, ConfigError,
  empty_config, invalid_config,
}
use go_fsm.Hooks.Registry.{
  HookError, hook_name_empty, empty_state_lists, hook_func_nil, hook_name_already_exists,
  wildcard_without_table, unknown_state, hook_not_found,
}
use go_fsm.Hooks.Execute.{CallbackError, user_error, callback_panic, GuardError}
use go_fsm.Machine.{
  MachineError, nil_transitions, initial_undefined, option_failed, table_refused,
  set_state_canceled, state_undefined, transition_canceled, transition_not_allowed,
  current_state_incorrect, rejected,
}
use go_fsm.Json.{
  JsonError, empty_state, empty_transitions, invalid_transitions, state_not_defined, machine_failed,
  no_serializer,
}

pub data Sentinel : Type 0 where
  err_invalid_configuration : Sentinel
  err_current_state_incorrect : Sentinel
  err_invalid_state_transition : Sentinel
  err_empty_state : Sentinel
  err_empty_transitions : Sentinel
  err_invalid_json_transitions : Sentinel
  err_empty_config : Sentinel
  err_invalid_state_name : Sentinel
  err_undefined_destinations : Sentinel
  err_invalid_config : Sentinel
  err_callback_failed : Sentinel
  err_callback_panic : Sentinel
  err_hook_name_empty : Sentinel
  err_hook_name_already_exists : Sentinel
  err_hook_not_found : Sentinel
  err_hook_func_nil : Sentinel
  err_context_canceled : Sentinel
  err_deadline_exceeded : Sentinel

-- Sentinels are compared as pointers are: by their number.
abbrev pub address : Sentinel → ℕ
address err_invalid_configuration = 0
address err_current_state_incorrect = 1
address err_invalid_state_transition = 2
address err_empty_state = 3
address err_empty_transitions = 4
address err_invalid_json_transitions = 5
address err_empty_config = 6
address err_invalid_state_name = 7
address err_undefined_destinations = 8
address err_invalid_config = 9
address err_callback_failed = 10
address err_callback_panic = 11
address err_hook_name_empty = 12
address err_hook_name_already_exists = 13
address err_hook_not_found = 14
address err_hook_func_nil = 15
address err_context_canceled = 16
address err_deadline_exceeded = 17

abbrev at_address : ℕ → Sentinel
at_address n =
    if n == 0
    then err_invalid_configuration
    else if n == 1
    then err_current_state_incorrect
    else if n == 2
    then err_invalid_state_transition
    else if n == 3
    then err_empty_state
    else if n == 4
    then err_empty_transitions
    else if n == 5
    then err_invalid_json_transitions
    else if n == 6
    then err_empty_config
    else if n == 7
    then err_invalid_state_name
    else if n == 8
    then err_undefined_destinations
    else if n == 9
    then err_invalid_config
    else if n == 10
    then err_callback_failed
    else if n == 11
    then err_callback_panic
    else if n == 12
    then err_hook_name_empty
    else if n == 13
    then err_hook_name_already_exists
    else if n == 14
    then err_hook_not_found
    else if n == 15
    then err_hook_func_nil
    else if n == 16
    then err_context_canceled
    else err_deadline_exceeded

at_address-address : (s : Sentinel) → at_address (address s) ≡ s
at_address-address err_invalid_configuration = refl
at_address-address err_current_state_incorrect = refl
at_address-address err_invalid_state_transition = refl
at_address-address err_empty_state = refl
at_address-address err_empty_transitions = refl
at_address-address err_invalid_json_transitions = refl
at_address-address err_empty_config = refl
at_address-address err_invalid_state_name = refl
at_address-address err_undefined_destinations = refl
at_address-address err_invalid_config = refl
at_address-address err_callback_failed = refl
at_address-address err_callback_panic = refl
at_address-address err_hook_name_empty = refl
at_address-address err_hook_name_already_exists = refl
at_address-address err_hook_not_found = refl
at_address-address err_hook_func_nil = refl
at_address-address err_context_canceled = refl
at_address-address err_deadline_exceeded = refl

pub address_iff : (s t : Sentinel) → ((address s == address t) ≡ true) ↔ (s ≡ t)
address_iff s t = (
  λ h.
      sym (at_address-address s)
      ∙ ap at_address (beq→eq (address s) (address t) h)
      ∙ at_address-address t,
  λ q. ap (λ u. address u == address t) q ∙ beq_refl (address t),
)

instance abbrev pub sentinel_eq : Eq Sentinel
sentinel_eq = record { equals = λ s t. address s == address t; equals_iff = address_iff }

-- The errors of the transitions package.
abbrev pub wraps_issue : ConfigIssue → List Sentinel
wraps_issue (invalid_source _) = err_invalid_state_name ∷ []
wraps_issue (invalid_destination _) = err_invalid_state_name ∷ []
wraps_issue (undefined_destinations _) = err_undefined_destinations ∷ []

-- `errors.Join`
abbrev pub wraps_issues : List ConfigIssue → List Sentinel
wraps_issues [] = []
wraps_issues (issue ∷ issues) = wraps_issue issue ++ wraps_issues issues

abbrev pub wraps_config : ConfigError → List Sentinel
wraps_config empty_config = err_empty_config ∷ []
wraps_config (invalid_config issues) = err_invalid_config ∷ wraps_issues issues

abbrev pub wraps_ctx : CtxError → List Sentinel
wraps_ctx canceled = err_context_canceled ∷ []
wraps_ctx deadline_exceeded = err_deadline_exceeded ∷ []

-- The errors of the hooks package. What a client's own error wraps is the client's.
abbrev pub wraps_hook : HookError → List Sentinel
wraps_hook hook_name_empty = err_hook_name_empty ∷ []
wraps_hook empty_state_lists = []
wraps_hook (hook_func_nil _ _) = err_hook_func_nil ∷ []
wraps_hook (hook_name_already_exists _) = err_hook_name_already_exists ∷ []
wraps_hook wildcard_without_table = []
wraps_hook (unknown_state _) = []
wraps_hook (hook_not_found _) = err_hook_not_found ∷ []

module _ (client : ℕ → List Sentinel) where
  abbrev pub wraps_callback : CallbackError → List Sentinel
  wraps_callback (user_error e) = client e
  wraps_callback (callback_panic _) = err_callback_panic ∷ []

  abbrev pub wraps_guard : GuardError → List Sentinel
  wraps_guard e = err_callback_failed ∷ wraps_callback e.cause

-- The errors of the fsm package, over those of its executor.
module _ {E : Type 0} (wraps_executor : E → List Sentinel) where
  abbrev pub wraps_machine : MachineError E → List Sentinel
  wraps_machine nil_transitions = err_invalid_configuration ∷ []
  wraps_machine (initial_undefined _) = err_invalid_configuration ∷ []
  wraps_machine (option_failed _) = []
  wraps_machine (table_refused e) = wraps_config e
  wraps_machine (set_state_canceled e) = wraps_ctx e
  wraps_machine (state_undefined _) = err_invalid_configuration ∷ []
  wraps_machine (transition_canceled e) = wraps_ctx e
  wraps_machine (transition_not_allowed _ _) = err_invalid_state_transition ∷ []
  wraps_machine (current_state_incorrect _ _ _) = err_current_state_incorrect ∷ []
  wraps_machine (rejected e) = wraps_executor e

  abbrev pub wraps_json : JsonError E → List Sentinel
  wraps_json empty_state = err_empty_state ∷ []
  wraps_json empty_transitions = err_empty_transitions ∷ []
  wraps_json (invalid_transitions e) = err_invalid_json_transitions ∷ wraps_config e
  wraps_json (state_not_defined _) = err_invalid_configuration ∷ []
  wraps_json (machine_failed e) = wraps_machine e
  wraps_json no_serializer = []

  -- `errors.Is(err, target)`; a nil error is `none`.
  abbrev pub fails_with : Option (MachineError E) → Sentinel → Bool
  fails_with none target = false
  fails_with (some e) target = contains (wraps_machine e) target
