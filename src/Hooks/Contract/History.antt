-- ===== src/Hooks/Contract/History.antt =====
-- Whole histories of calls on a registry (hooks/registry.go), against the contract.
use go_fsm.Base.{ℕ, ◌≡◌, ◌∙◌, refl, sym, ap, not, Option, List, [], ◌∷◌, map, String, arith}
use go_fsm.Base.Lists.{keep}
use go_fsm.Base.Maps.{is_some}
use go_fsm.Hooks.Entry.{HookType, pre, post, HookEntry}
use go_fsm.Hooks.Registry.{StateTable, HookConfig, Registry, new_registry, register_hook}
use go_fsm.Hooks.Registry.Represents.{entries, new_registry-Represents}
use go_fsm.Hooks.Execute.{
  HookCall, Callbacks, collect_entries, execute_pre_transition_hooks, execute_post_transition_hooks,
}
use go_fsm.Hooks.Fifo.{fires, collect_entries-keep}
use go_fsm.Hooks.Outcome.{GuardsRun, run_guards-GuardsRun, act_in_order, run_actions-act_in_order}
use go_fsm.Hooks.Contract.{
  Item, RegistryCall, step, run, accepts, applies, contract_step, contract_run,
}
use go_fsm.Hooks.Contract.Simulation.{
  Simulates, step-Simulates, callback_of, callbacks-items, register_hook-accepts,
}

new_registry-Simulates : (table : Option StateTable) → Simulates table (new_registry table) []
new_registry-Simulates table = record {
  log = [];
  represents = new_registry-Represents table;
  listed = refl;
  table_kept = unfold new_registry in refl;
}

run-Simulates :
    {table : Option StateTable} (r : Registry) (its : List Item) (calls : List RegistryCall)
    → Simulates table r its
    → Simulates table (run r calls) (contract_run table its calls)
unfolding run contract_run
run-Simulates r its [] s = s
run-Simulates {table} r its (call ∷ calls) s =
    run-Simulates (step r call).0 (contract_step table its call) calls (step-Simulates s call)

module _ (table : Option StateTable) (calls : List RegistryCall) where
  -- The registry after the calls, and the contract's list after them.
  abbrev pub after : Registry
  after = run (new_registry table) calls

  abbrev pub promised : List Item
  promised = contract_run table [] calls

  -- The functions that the contract has run for a transition, in order.
  abbrev pub due : HookType → String → String → List (Option ℕ)
  due t from to = map (λ (item : Item). item.config.func) (keep (applies t from to) promised)

  pub after-Simulates : Simulates table after promised
  after-Simulates = run-Simulates (new_registry table) [] calls (new_registry-Simulates table)

  -- After any calls, the executors collect the functions of exactly the accepted hooks that apply
  -- to the transition and were not removed, in the order of their registration.
  pub collected-due :
      (t : HookType) (from to : String)
      → map callback_of (collect_entries t after from to) ≡ due t from to
  collected-due t from to =
      ap (map callback_of) (collect_entries-keep after-Simulates.represents t from to)
      ∙ callbacks-items t from to after-Simulates.log
      ∙ ap (λ l. map (λ (item : Item). item.config.func) (keep (applies t from to) l))
          after-Simulates.listed

  -- After any calls, a registration returns no error exactly when the contract accepts it: a name
  -- that is new and not empty, states on both sides, a callback, and patterns that the state table
  -- can answer for.
  pub registered-accepts :
      (t : HookType) (config : HookConfig)
      → not (is_some (register_hook t after config).1) ≡ accepts table promised config
  registered-accepts t config = register_hook-accepts after-Simulates t config

-- An entry of a type runs the function of that type.
callbacks_pre :
    (from to : String) (xs : List HookEntry)
    → map callback_of (keep (fires pre from to) xs)
      ≡ map (λ (e : HookEntry). e.guard) (keep (fires pre from to) xs)
callbacks_pre from to [] = refl
callbacks_pre from to (x ∷ xs) = ground (arith, callbacks_pre from to xs)

callbacks_post :
    (from to : String) (xs : List HookEntry)
    → map callback_of (keep (fires post from to) xs)
      ≡ map (λ (e : HookEntry). e.action) (keep (fires post from to) xs)
callbacks_post from to [] = refl
callbacks_post from to (x ∷ xs) = ground (arith, callbacks_post from to xs)

module _ (table : Option StateTable) (calls : List RegistryCall) where
  guards_due :
      (from to : String)
      → map (λ (e : HookEntry). e.guard) (collect_entries pre (after table calls) from to)
        ≡ due table calls pre from to
  guards_due from to =
      let kept = collect_entries-keep (after-Simulates table calls).represents pre from to in
      ap (map (λ (e : HookEntry). e.guard)) kept
      ∙ sym (callbacks_pre from to (entries (after-Simulates table calls).log))
      ∙ ap (map callback_of) (sym kept)
      ∙ collected-due table calls pre from to

  actions_due :
      (from to : String)
      → map (λ (e : HookEntry). e.action) (collect_entries post (after table calls) from to)
        ≡ due table calls post from to
  actions_due from to =
      let kept = collect_entries-keep (after-Simulates table calls).represents post from to in
      ap (map (λ (e : HookEntry). e.action)) kept
      ∙ sym (callbacks_post from to (entries (after-Simulates table calls).log))
      ∙ ap (map callback_of) (sym kept)
      ∙ collected-due table calls post from to

  module _ {W : Type 0} (cb : Callbacks W) (call : HookCall) (w : W) where
    -- After any registrations, removals and clears, the pre-transition executor runs the guards of
    -- exactly the accepted and not removed hooks that apply, in order of registration, each in the
    -- world that the one before it left, up to the first that fails or panics; the error has that
    -- guard's place and cause.
    pub execute_pre-GuardsRun :
        GuardsRun cb call 0
          (due table calls pre call.from call.to)
          w
          (execute_pre_transition_hooks cb (after table calls) call w)
    unfolding execute_pre_transition_hooks
    execute_pre-GuardsRun = rw (← guards_due call.from call.to) (
        run_guards-GuardsRun cb call 0 (collect_entries pre (after table calls) call.from call.to)
          w)

    -- After any calls, the post-transition executor runs the actions of exactly the hooks that
    -- apply, in order of registration, whether or not some panic.
    pub execute_post-act_in_order :
        execute_post_transition_hooks cb (after table calls) call w
        ≡ act_in_order cb call (due table calls post call.from call.to) w
    unfolding execute_post_transition_hooks
    execute_post-act_in_order =
        run_actions-act_in_order cb call
          (collect_entries post (after table calls) call.from call.to) w
        ∙ ap (λ fs. act_in_order cb call fs w) (actions_due call.from call.to)
