-- ===== src/Example/Examples.antt =====
-- The result about example/main.go, applied.
use go_fsm.Base.{◌≡◌, refl, String, true, false, some, ◌==◌, string_eq, List, [], ◌∷◌, ◌++◌, ok}
use go_fsm.Context.{Ctx, background, canceled}
use go_fsm.Hooks.Execute.{Callbacks, GuardOutcome, ActionOutcome}
use go_fsm.Machine.{transition_canceled}
use go_fsm.Machine.Moves.{get_state}
use go_fsm.Example.{World, Running, running_failed, example_run, shut_down}
use go_fsm.Example.Runs.{typical_table, IsTame, error_of, example_run-error_of}

-- An action that keeps the states that it is given.
abbrev recorder : Callbacks (World (List String))
recorder = record {
  run_guard = λ g call w. (GuardOutcome.passed, w);
  run_action =
      λ a call w. (ActionOutcome.returned, record w { outside = w.outside ++ call.to ∷ [] });
}

recorder-IsTame : IsTame recorder
recorder-IsTame a call w = refl

abbrev address : String
address = "fsm.Subscribe.0xc000010000"

named : (address == "") ≡ false
named = refl

-- The context ends before the second transition.
abbrev ended : Ctx
ended = record { id = 1; error = some canceled }

example_run-error_of_example :
    (error_of (example_run recorder typical_table address 1 background true background ended [])
      ≡ some (running_failed (transition_canceled canceled)))
    × ((r : Running (List String))
        → example_run recorder typical_table address 1 background true background ended [] ≡ ok r
        → (get_state r.0 ≡ "Running") × (get_state (shut_down r).0 ≡ "Stopped"))
example_run-error_of_example =
    example_run-error_of recorder address 1 true background background ended [] recorder-IsTame
      named
