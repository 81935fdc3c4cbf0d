-- ===== src/Machine/Examples.antt =====
-- Runs of fsm.go over a small table, and the results about it applied to that table.
use go_fsm.Base.{
  if◌then◌else◌, ◌==◌, ℕ, ◌≤◌, ◌≡◌, ◌≢◌, ◌↔◌, refl, String, string_eq, true, Option, none, some,
  List, [], ◌∷◌, ◌++◌, map, ok,
}
use go_fsm.Base.Lists.{contains, set_add}
use go_fsm.Base.Maps.{has_key, lookup, insert, get_or}
use go_fsm.Base.Sort.{sort}
use go_fsm.Base.Text.{str_leb}
use go_fsm.Context.{Ctx, canceled, background}
use go_fsm.Hooks.Execute.{HookCall, GuardError}
use go_fsm.Hooks.Examples.{open_table, calls, logging}
use go_fsm.Transitions.Names.{validate_state_name}
use go_fsm.Transitions.Config
use go_fsm.Transitions.Config.{Config, new_config, is_transition_allowed}
use go_fsm.Transitions.Examples.{traffic, traffic_config, traffic_accepted, traffic-IsUnique}
use go_fsm.Machine.{
  config_db, Executor, Machine, MachineOption, with_callback_registry, initial_machine, new_machine,
  new_simple, transition_canceled, transition_not_allowed, rejected, current_state_incorrect,
}
use go_fsm.Machine.Moves.{
  get_state, store_state, transition, set_state, transition_if_current_state, available_transitions,
  is_terminal,
}
use go_fsm.Machine.Moves
use go_fsm.Machine.Atomic.{
  changed, IsClear, transitioned, stated, WorldKept, transition-none_iff, transition-kept,
  set_state_lem,
}
use go_fsm.Machine.Steps.{Call, set, move, move_from, perform_all, perform}
use go_fsm.Machine.Answers.{Answers, perform-Answers}
use go_fsm.Machine.Chain.{Observes, IsChain, perform_all-IsChain}
use go_fsm.Machine.Rivals.{rival, wins, wins_at_most_one}
use go_fsm.Machine.Queries.{available_transitions-transitioned}
use go_fsm.Machine.Construct.{Leads, new_simple-perform_all, new_simple-Leads}
use go_fsm.Machine.Wired.{executor, Hooked, transition-Hooked}

-- An executor that logs the post-transition hooks, and whose pre-transition hooks veto "off".
abbrev watcher : Executor ℕ (List HookCall)
watcher = record {
  execute_pre_transition_hooks = λ call w. (veto call.to, w);
  execute_post_transition_hooks = λ call w. w ++ call ∷ [];
}
  where
    veto : String → Option ℕ
    veto to = if to == "off" then some 1 else none

watcher-Observes : Observes (λ w. w) watcher
watcher-Observes = record { pre_quiet = λ call w. refl; post_logged = λ call w. refl }

abbrev pub opts : List (MachineOption ℕ (List HookCall))
opts = with_callback_registry (some watcher) ∷ []

abbrev pub light : Machine ℕ (List HookCall)
light = record (initial_machine "green" (config_db traffic_config)) { callbacks = some watcher }

pub light_built : new_simple "green" traffic opts ≡ ok light
unfolding new_simple new_machine new_config validate_state_name lookup Config.has_state insert
    set_add contains get_or
light_built = refl

-- A context that is done.
abbrev done_ctx : Ctx
done_ctx = record { id = 1; error = some canceled }

transition_test :
    (get_state (transition light "yellow" []).0 ≡ "yellow")
    × ((transition light "red" []).2 ≡ some (transition_not_allowed "green" "red"))
    × ((transition (store_state light "yellow") "off" []).2 ≡ some (rejected 1))
    × ((Moves.transition_with_context light done_ctx "yellow" []).2
        ≡ some (transition_canceled canceled))
    × ((transition_if_current_state light "red" "yellow" []).2
        ≡ some (current_state_incorrect "green" "red" "yellow"))
    × (get_state (set_state light "off" []).0 ≡ "off")
    × (available_transitions (store_state light "yellow") ≡ "off" ∷ "red" ∷ [])
    × (is_terminal (store_state light "off") ≡ true)
unfolding Moves.transition_with_context is_transition_allowed lookup contains
    Moves.transition_if_current_state_with_context Moves.set_state_with_context Config.has_state
    available_transitions sort Config.get_all_states set_add str_leb is_terminal
transition_test = (refl, refl, refl, refl, refl, refl, refl, refl)

light_made : new_machine "green" (some (config_db traffic_config)) opts ≡ ok light
unfolding new_machine Config.has_state lookup
light_made = refl

green_known : light.transitions.has_state (get_state light) ≡ true
unfolding Config.has_state lookup
green_known = refl

yellow_succeeds : (transitioned light background "yellow" []).2 ≡ none
unfolding Moves.transition_with_context is_transition_allowed lookup contains
yellow_succeeds = refl

red_fails : (transitioned light background "red" []).2 ≡ some (transition_not_allowed "green" "red")
unfolding Moves.transition_with_context is_transition_allowed lookup contains
red_fails = refl

yellow_green : ◌≢◌ {A = String} "yellow" "green"
yellow_green h = absurd (cc)

yellow_allowed : is_transition_allowed traffic_config "green" "yellow" ≡ true
unfolding is_transition_allowed lookup contains
yellow_allowed = refl

abbrev run_of_calls : List Call
run_of_calls =
    move background "yellow"
    ∷ set background "green"
    ∷ move_from background "green" "yellow"
    ∷ move background "red"
    ∷ []

abbrev guarded_calls : List Call
guarded_calls = move background "yellow" ∷ move background "off" ∷ move background "red" ∷ []

new_simple-perform_all_example :
    has_key (get_state (perform_all light run_of_calls []).0) traffic ≡ true
new_simple-perform_all_example =
    new_simple-perform_all "green" traffic opts light light_built traffic-IsUnique run_of_calls []

new_simple-Leads_example : Leads traffic "green" (get_state (perform_all light guarded_calls []).0)
new_simple-Leads_example =
    new_simple-Leads "green" traffic opts light light_built traffic-IsUnique guarded_calls []
      (refl, (refl, (refl, tt)))

perform_all-IsChain_example :
    IsChain "green"
      (perform_all light run_of_calls []).1
      (get_state (perform_all light run_of_calls []).0)
perform_all-IsChain_example =
    perform_all-IsChain (λ w. w) watcher watcher-Observes light run_of_calls [] refl refl

perform-Answers_example :
    (perform light (move background "yellow") [] ≡ transitioned light background "yellow" [])
    ↔ Answers light [] (move background "yellow") (transitioned light background "yellow" [])
perform-Answers_example =
    perform-Answers light (move background "yellow") [] (transitioned light background "yellow" [])

transition-none_iff_example :
    ((transitioned light background "yellow" []).2 ≡ none) ↔ IsClear light background "yellow" []
transition-none_iff_example = transition-none_iff light background "yellow" []

transition-kept_example :
    ((transitioned light background "red" []).0 ≡ light)
    × WorldKept light background "red" []
        (transitioned light background "red" [])
        (transition_not_allowed "green" "red")
transition-kept_example =
    transition-kept light background "red" [] (transition_not_allowed "green" "red") red_fails

set_state_lem_example :
    (((stated light background "off" []).2 ≡ none)
      ↔ ((background.error ≡ none) × (light.transitions.has_state "off" ≡ true)))
    × (((stated light background "off" []).2 ≡ none)
        → stated light background "off" [] ≡ changed light background "off" [] [])
    × (((stated light background "off" []).2 ≢ none)
        → ((stated light background "off" []).0 ≡ light)
          × ((stated light background "off" []).1 ≡ []))
set_state_lem_example = set_state_lem light background "off" []

abbrev racers : List (Ctx × String)
racers = (background, "yellow") ∷ (done_ctx, "yellow") ∷ (background, "yellow") ∷ []

wins_at_most_one_example : wins light (map (rival "green") racers) [] ≤ 1
wins_at_most_one_example =
    wins_at_most_one "green" light racers [] (yellow_green, (yellow_green, (yellow_green, tt)))

abbrev bare : Machine ℕ (List HookCall)
bare = initial_machine "green" (config_db traffic_config)

available_transitions-transitioned_example :
    (contains (available_transitions bare) "yellow" ≡ true)
    ↔ ((transitioned bare background "yellow" []).2 ≡ none)
available_transitions-transitioned_example =
    available_transitions-transitioned bare traffic traffic_accepted traffic-IsUnique refl refl
      background refl "yellow" []

abbrev hooked : Machine GuardError (List ℕ)
hooked = record (initial_machine "green" (config_db traffic_config)) {
  callbacks = some (executor logging open_table (λ w. calls));
}

transition-Hooked_example :
    Hooked logging open_table
      (λ w. calls)
      hooked
      background
      "yellow"
      []
      (transitioned hooked background "yellow" [])
transition-Hooked_example =
    transition-Hooked logging open_table (λ w. calls) hooked refl background "yellow" [] refl
      yellow_allowed
