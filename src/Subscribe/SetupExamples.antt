-- ===== src/Subscribe/SetupExamples.antt =====
-- Runs of the setup of Subscribe, and the results about it applied to these.
use go_fsm.Base.{
  if◌then◌else◌, ◌≡◌, ◌↔◌, ◌==◌, string_eq, refl, nat_eq, true, false, some, none, List, [], ◌∷◌,
  ◌++◌,
}
use go_fsm.Base.Maps.{lookup, has_key, is_some}
use go_fsm.Context.{background}
use go_fsm.Hooks.Entry.{pre, post}
use go_fsm.Hooks.Registry.{Registry, new_registry}
use go_fsm.Hooks.Registry.Represents.{new_registry-Represents}
use go_fsm.Hooks.Registry.Registered.{registered_entry}
use go_fsm.Hooks.Execute.{collect_entries}
use go_fsm.Hooks.Contract.{remove}
use go_fsm.Hooks.Contract
use go_fsm.Hooks.Execute.{HookCall, Callbacks, GuardError, passed, returned}
use go_fsm.Transitions.Examples.{traffic_config}
use go_fsm.Machine.{Machine, initial_machine, config_db}
use go_fsm.Machine.Moves.{get_state}
use go_fsm.Machine.Steps.{move, set, perform_all}
use go_fsm.Machine.Chain.{IsChain}
use go_fsm.Machine.Wired.{registry_executor}
use go_fsm.Subscribe.Observed.{Tells, prepared-IsChain}
use go_fsm.Subscribe.Setup.{
  Host, registrar, IsNew, broadcast_config, prepare, prepare-prepare, prepare-ok_iff,
  prepare-collect_entries,
}

-- A machine with a new registry, whose table knows every state.
abbrev host : Host
host = record {
  callbacks = registrar;
  hook_name = "fsm.Subscribe.0xc000010000";
  broadcast_hook = 7;
  state_chan_setup = none;
  broadcast_manager = none;
}

abbrev registry : Registry
registry = new_registry (some (record { has_state = λ s. true; get_all_states = [] }))

host-IsNew : IsNew host
host-IsNew = (refl, refl)

named : (host.hook_name == "") ≡ false
named = refl

set_up_done : (prepare (some background) host registry).1 ≡ none
set_up_done =
    (prepare-ok_iff host registry background host-IsNew named).1
      (unfold new_registry lookup in (refl, refl))

prepare-ok_iff_example :
    ((prepare (some background) host registry).1 ≡ none)
    ↔ ((has_key host.hook_name registry.hooks ≡ false) × (is_some registry.transitions ≡ true))
prepare-ok_iff_example = prepare-ok_iff host registry background host-IsNew named

prepare-collect_entries_example :
    (collect_entries post (prepare (some background) host registry).0.1 "New" "Booting"
      ≡ collect_entries post registry "New" "Booting"
        ++ registered_entry post registry (broadcast_config host) ∷ [])
    × (collect_entries pre (prepare (some background) host registry).0.1 "New" "Booting"
        ≡ collect_entries pre registry "New" "Booting")
prepare-collect_entries_example =
    prepare-collect_entries host registry [] background "New" "Booting" host-IsNew
      (new_registry-Represents _) set_up_done

-- The hook is removed between two calls of Subscribe.
prepare-prepare_example :
    (let ((h', r'), error) = prepare (some background) host registry in
      let r'' = Contract.run r' (remove host.hook_name ∷ []) in
      prepare (some background) h' r'' ≡ ((h', r''), error))
prepare-prepare_example =
    prepare-prepare background background (remove host.hook_name ∷ []) host registry refl

-- Callbacks that keep the calls of the broadcast hook.
abbrev keeping : Callbacks (List HookCall)
keeping = record {
  run_guard = λ g call w. (passed, w);
  run_action = λ a call w. (returned, if a == 7 then w ++ call ∷ [] else w);
}

keeping-Tells : Tells (λ w. w) 7 keeping
keeping-Tells = record {
  guards_quiet = λ g call w. refl;
  others_quiet = λ a call w h. rw h refl;
  told = λ call w. refl;
}

abbrev wired : Machine GuardError (List HookCall)
wired = record (initial_machine "green" (config_db traffic_config)) {
  callbacks = some (registry_executor keeping (λ w. (prepare (some background) host registry).0.1));
}

prepared-IsChain_example :
    IsChain "green"
      (perform_all wired (move background "yellow" ∷ set background "green" ∷ []) []).1
      (get_state (perform_all wired (move background "yellow" ∷ set background "green" ∷ []) []).0)
prepared-IsChain_example =
    prepared-IsChain (λ w. w) 7 keeping keeping-Tells host registry [] background host-IsNew
      (new_registry-Represents _) set_up_done refl tt wired
      (move background "yellow" ∷ set background "green" ∷ []) [] refl refl
