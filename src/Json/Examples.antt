-- ===== src/Json/Examples.antt =====
-- Runs of json.go, and the results about it applied to a small table.
use go_fsm.Base.{ℕ, ◌≡◌, ◌↔◌, refl, string_eq, true, none, some, List, [], ◌∷◌, ok, err}
use go_fsm.Base.Lists.{All}
use go_fsm.Base.Maps.{has_key}
use go_fsm.Context.{background}
use go_fsm.Hooks.Execute.{HookCall}
use go_fsm.Transitions.Config.{as_map}
use go_fsm.Transitions.Config.Accept.{IsWellFormed}
use go_fsm.Transitions.Examples.{traffic, traffic_config, traffic_accepted, traffic-IsUnique}
use go_fsm.Machine.{Machine}
use go_fsm.Machine.Moves.{get_state}
use go_fsm.Machine.Steps.{move, perform_all}
use go_fsm.Machine.Construct.{IsUsable}
use go_fsm.Machine.Examples.{opts, light, light_built}
use go_fsm.Json.{PersistentState, empty_state, empty_transitions, no_serializer, restore, snapshot}
use go_fsm.Json.Restore.{restore-ok_iff, restore-snapshot}

abbrev saved : PersistentState
saved = record { state = get_state last; transitions = traffic; hooks = [] }
  where
    last : Machine ℕ (List HookCall)
    last = (perform_all light (move background "yellow" ∷ []) []).0

refused_test :
    (restore (record { state = ""; transitions = traffic; hooks = [] }) opts ≡ err empty_state)
    × (restore (record { state = "green"; transitions = []; hooks = [] }) opts
        ≡ err empty_transitions)
    × (snapshot none [] light ≡ err no_serializer)
unfolding restore snapshot
refused_test = (refl, refl, refl)

restore-ok_iff_example :
    ((m : Machine ℕ (List HookCall)) × (restore saved opts ≡ ok m))
    ↔ (IsWellFormed traffic × (has_key saved.state traffic ≡ true) × All IsUsable opts)
restore-ok_iff_example = restore-ok_iff saved opts

saved_ok :
    snapshot
      (some (as_map traffic_config))
      []
      (perform_all light (move background "yellow" ∷ []) []).0
    ≡ ok saved
unfolding snapshot as_map
saved_ok = refl

restore-snapshot_example :
    (m : Machine ℕ (List HookCall)) × (restore saved opts ≡ ok m)
    × (get_state m ≡ get_state (perform_all light (move background "yellow" ∷ []) []).0)
    × (m.transitions ≡ (perform_all light (move background "yellow" ∷ []) []).0.transitions)
restore-snapshot_example =
    restore-snapshot "green" traffic opts opts light light_built traffic_accepted traffic-IsUnique
      (tt, tt) (move background "yellow" ∷ []) [] [] saved saved_ok
