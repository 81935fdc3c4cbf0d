-- ===== src/Hooks/Examples.antt =====
-- Runs of hooks/registry.go, and the results about it applied to a short history of calls.
use go_fsm.Base.{
  ℕ, nat_eq, ◌≡◌, refl, String, string_eq, true, false, not, Option, some, List, [], ◌∷◌, ◌==◌, map,
}
use go_fsm.Base.Maps.{is_some}
use go_fsm.Base.Lists.{contains, IsUnique}
use go_fsm.Context.{background}
use go_fsm.Hooks.Entry.{pre, post}
use go_fsm.Hooks.Registry.{StateTable, HookConfig, register_hook}
use go_fsm.Hooks.Registry.Represents.{Log}
use go_fsm.Hooks.Execute.{
  HookCall, Callbacks, GuardOutcome, passed, failed, returned, execute_pre_transition_hooks,
  execute_post_transition_hooks,
}
use go_fsm.Hooks.Outcome.{GuardsRun, act_in_order}
use go_fsm.Hooks.Contract.{RegistryCall, register, remove, accepts, contract_run}
use go_fsm.Hooks.Registry.Listing.{HookInfo, get_hooks, find_info}
use go_fsm.Hooks.Contract.Listed.{told, find_item, get_hooks-promised}
use go_fsm.Hooks.Contract.History.{
  after, after-Simulates, promised, due, registered-accepts, execute_pre-GuardsRun,
  execute_post-act_in_order,
}

abbrev pub hook : String → List String → List String → ℕ → HookConfig
hook name from to func = record { name = name; from = from; to = to; func = some func }

-- Any state is known.
abbrev pub open_table : Option StateTable
open_table = some (record { has_state = λ s. true; get_all_states = [] })

-- Two guards and an action, in this order, with a name that is taken in between.
abbrev pub calls : List RegistryCall
calls =
    register pre (hook "named" ("a" ∷ []) ("b" ∷ []) 1)
    ∷ register post (hook "named" ("a" ∷ []) ("b" ∷ []) 2)
    ∷ register pre (hook "any" ("*" ∷ []) ("b" ∷ "c" ∷ []) 3)
    ∷ register post (hook "act" ("a" ∷ []) ("*" ∷ []) 4)
    ∷ []

-- Functions that log themselves; guard 3 fails.
abbrev pub logging : Callbacks (List ℕ)
logging = record {
  run_guard = λ g call w. (if_third g, g ∷ w);
  run_action = λ a call w. (returned, a ∷ w);
}
  where
    if_third : ℕ → GuardOutcome
    if_third g = elim (g == 3) [ true ↦ failed 7 | false ↦ passed ]

abbrev a_to_b : HookCall
a_to_b = record { ctx = background; from = "a"; to = "b"; seen = "a" }

due_test :
    (due open_table calls pre "a" "b" ≡ some 1 ∷ some 3 ∷ [])
    × (due open_table calls post "a" "b" ≡ some 4 ∷ [])
    × (due open_table calls pre "x" "c" ≡ some 3 ∷ [])
    × (due open_table (remove "named" ∷ calls) pre "a" "b" ≡ some 1 ∷ some 3 ∷ [])
unfolding contract_run contains
due_test = (refl, refl, refl, refl)

registered-accepts_example :
    not
      (is_some (register_hook post (after open_table calls) (hook "act" ("a" ∷ []) ("b" ∷ []) 5)).1)
    ≡ accepts open_table (promised open_table calls) (hook "act" ("a" ∷ []) ("b" ∷ []) 5)
registered-accepts_example =
    registered-accepts open_table calls post (hook "act" ("a" ∷ []) ("b" ∷ []) 5)

execute_pre-GuardsRun_example :
    GuardsRun logging a_to_b 0
      (due open_table calls pre "a" "b")
      []
      (execute_pre_transition_hooks logging (after open_table calls) a_to_b [])
execute_pre-GuardsRun_example = execute_pre-GuardsRun open_table calls logging a_to_b []

execute_post-act_in_order_example :
    execute_post_transition_hooks logging (after open_table calls) a_to_b []
    ≡ act_in_order logging a_to_b (due open_table calls post "a" "b") []
execute_post-act_in_order_example = execute_post-act_in_order open_table calls logging a_to_b []

-- The registry's own list of hooks after the calls.
abbrev log : Log
log = (after-Simulates open_table calls).log

abbrev late : HookConfig
late = hook "late" ("a" ∷ []) ("b" ∷ []) 5

get_hooks-promised_example :
    IsUnique (map (λ (info : HookInfo). info.name) (get_hooks (after open_table calls)))
    × ((name : String)
        → find_info name (get_hooks (after open_table calls))
          ≡ told (find_item name (promised open_table calls)))
get_hooks-promised_example = get_hooks-promised open_table calls
