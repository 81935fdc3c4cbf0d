-- ===== src/Example/Runs.antt =====
-- example/main.go: what run and the end of main come to, wherever the context ends meanwhile.
use go_fsm.Base.{
  ℕ, ◌≡◌, ◌∙◌, ap, refl, sym, subst, inl, inr, String, Bool, true, false, Option, none, some, [],
  ◌∷◌, ◌==◌, string_eq, Result, ok, err, Option-cases,
}
use go_fsm.Base.Lists.{contains}
use go_fsm.Base.Maps.{lookup, insert, get_or}
use go_fsm.Base.Sort.{sort}
use go_fsm.Context.{Ctx, CtxError, background}
use go_fsm.Hooks.Entry.{HookEntry, post, has_wildcard_pattern, matches}
use go_fsm.Hooks.Registry.{
  StateTable, place, Registry, new_registry, register_hook, validate_entry, entry_keys,
}
use go_fsm.Hooks.Registry.Options.{new_registry_with}
use go_fsm.Hooks.Registry.Registered.{validated, registered_entry, register_hook_ok}
use go_fsm.Hooks.Execute.{
  Callbacks, GuardError, HookCall, collect_entries, execute_pre_transition_hooks,
  execute_post_transition_hooks, run_guards, run_actions, safe_call_action,
}
use go_fsm.Transitions.Config.{Config, is_transition_allowed}
use go_fsm.Transitions.Config
use go_fsm.Transitions.Common.{typical}
use go_fsm.Machine.{
  Machine, transition_canceled, config_db, given_logger, initial_machine, new_machine,
}
use go_fsm.Machine.Moves.{Outcome, get_state, hook_call, transition_with_context}
use go_fsm.Broadcast.Subscriptions.{new_manager}
use go_fsm.Machine.Atomic.{changed, transition-none_iff, transition-changed}
use go_fsm.Machine.Answers.{canceled_lem}
use go_fsm.Machine.Wired.{registry_executor}
use go_fsm.Subscribe.Setup.{Host, broadcast_config, set_up, prepare_with, prepare}
use go_fsm.Example.{
  World, ExampleError, greeting_canceled, booting_failed, running_failed, Running, state_table,
  new_host, greeted, after_running, after_booting, bring_up, after_prepare, logged, then_stop,
  subscribe_and_bring_up, example_run, shut_down,
}

-- transitions.Typical
abbrev pub typical_table : Config
typical_table = record { config = typical; index = typical }

-- The actions leave the registry as it is, as BroadcastHook does.
abbrev pub IsTame : {V : Type 0} → Callbacks (World V) → Type 0
IsTame {V} hooks =
    (a : ℕ) (call : HookCall) (w : World V) → (hooks.run_action a call w).1.registry ≡ w.registry

abbrev pub error_of : {A : Type 0} → Result ExampleError A → Option ExampleError
error_of (ok a) = none
error_of (err e) = some e

-- What run returns where the context is, or is not, done as Subscribe's `select` and the two
-- transitions find it.
abbrev pub first_end : Option CtxError → Option CtxError → Option CtxError → Option ExampleError
first_end (some e) booting running = some (greeting_canceled e)
first_end none (some e) running = some (booting_failed (transition_canceled e))
first_end none none (some e) = some (running_failed (transition_canceled e))
first_end none none none = none

module _ (hook_name : String) (named : (hook_name == "") ≡ false) (table : StateTable) where
  abbrev registry : Registry
  registry = new_registry (some table)

  abbrev entry : HookEntry
  entry = registered_entry post registry (broadcast_config (new_host hook_name))

  abbrev hooked : Registry
  hooked = record registry {
    next_ref = 1;
    next_seq = 1;
    hooks = (hook_name, entry) ∷ [];
    post_wildcard = entry ∷ [];
  }

  valid : validated post registry (broadcast_config (new_host hook_name)) ≡ ok []
  unfolding validate_entry entry_keys has_wildcard_pattern lookup contains new_registry
  valid = rw (named, validate_entry) refl

  registered : register_hook post registry (broadcast_config (new_host hook_name)) ≡ (hooked, none)
  unfolding has_wildcard_pattern insert contains new_registry place
  registered = register_hook_ok post registry (broadcast_config (new_host hook_name)) [] valid

  abbrev hosted : Host
  hosted = record (new_host hook_name) {
    state_chan_setup = some none;
    broadcast_manager = some new_manager;
  }

  prepared :
      (ctx : Ctx) → prepare (some ctx) (new_host hook_name) registry ≡ ((hosted, hooked), none)
  unfolding prepare prepare_with set_up
  prepared ctx = rw registered refl

  module _ {V : Type 0} (hooks : Callbacks (World V)) (tame : IsTame hooks) where
    acted :
        (call : HookCall) (w : World V)
        → (execute_post_transition_hooks hooks hooked call w).registry ≡ w.registry
    unfolding execute_post_transition_hooks collect_entries get_or lookup matches contains sort
        run_actions safe_call_action new_registry
    acted call w = tame 0 call w

    passed :
        (call : HookCall) (w : World V)
        → execute_pre_transition_hooks hooks hooked call w ≡ (none, w)
    unfolding execute_pre_transition_hooks collect_entries get_or lookup run_guards new_registry
    passed call w = refl

    module _ (logger : ℕ) where
      machine : String → Machine GuardError (World V)
      machine s = record (initial_machine s (config_db typical_table)) {
        logger = given_logger logger;
        callbacks = some (registry_executor hooks (λ (w : World V). w.registry));
      }

      -- An edge of the table, in a world with the hook.
      moved :
          (ctx : Ctx) (from to : String) (w : World V)
          → ctx.error ≡ none
          → is_transition_allowed typical_table from to ≡ true
          → w.registry ≡ hooked
          → (w' : World V) × (transition_with_context (machine from) ctx to w
              ≡ (machine to, w', none))
            × (w'.registry ≡ hooked)
      unfolding machine
      moved ctx from to w live h q =
          let call = hook_call ctx from to (machine from) in
          let after = hook_call ctx from to (machine to) in
          let quiet : execute_pre_transition_hooks hooks w.registry call w ≡ (none, w) =
            ap (λ r. execute_pre_transition_hooks hooks r call w) q ∙ passed call w in
          let clear =
            (transition-none_iff (machine from) ctx to w).1
              (live, h, ap (λ (p : Option GuardError × World V). p.0) quiet) in
          (
            execute_post_transition_hooks hooks w.registry after w,
            transition-changed (machine from) ctx to w clear
                ∙ ap (λ (p : Option GuardError × World V). changed (machine from) ctx to w p.1)
                    quiet,
            ap (λ r. (execute_post_transition_hooks hooks r after w).registry) q
                ∙ acted after w
                ∙ q,
          )

      -- What run comes to: no error but this, and otherwise a machine that can be shut down.
      abbrev Comes : Option ExampleError → Result ExampleError (Running V) → Type 0
      Comes error result =
          (error_of result ≡ error)
          × ((r : Running V)
              → result ≡ ok r
              → (get_state r.0 ≡ "Running") × (get_state (shut_down r).0 ≡ "Stopped"))

      shut :
          (w : World V)
          → w.registry ≡ hooked
          → get_state (shut_down (machine "Running", w)).0 ≡ "Stopped"
      unfolding shut_down is_transition_allowed lookup contains machine
      shut w q =
          let (w1, e1, q1) = moved background "Running" "Stopping" w refl refl q in
          let (w2, e2, _) = moved background "Stopping" "Stopped" w1 refl refl q1 in
          ap (λ (out : Outcome GuardError (World V)). get_state (then_stop (logged out)).0) e1
          ∙ ap (λ (out : Outcome GuardError (World V)). get_state (logged out).0) e2

      running_Comes :
          (running : Ctx) (w : World V)
          → w.registry ≡ hooked
          → Comes
              (first_end none none running.error)
              (after_running (transition_with_context (machine "Booting") running "Running" w))
      unfolding after_running is_transition_allowed lookup contains machine
      running_Comes running w q = elim (Option-cases running.error) [
        | inr (e, h) ↦
            rw (canceled_lem (machine "Booting") running "Running" w e h)
              (rw h (refl, λ r k. absurd (cc)))
        | inl h ↦
            let (w1, e1, q1) = moved running "Booting" "Running" w h refl q in
            rw e1 (
              rw h (
                refl,
                λ r k.
                    let same : (machine "Running", w1) ≡ r = cc in
                    subst
                      (λ (r : Running V).
                        (get_state r.0 ≡ "Running") × (get_state (shut_down r).0 ≡ "Stopped"))
                      same (refl, shut w1 q1),
              ))
      ]

      booting_Comes :
          (booting running : Ctx) (w : World V)
          → w.registry ≡ hooked
          → Comes
              (first_end none booting.error running.error)
              (bring_up booting running (machine "New", w))
      unfolding bring_up after_booting is_transition_allowed lookup contains
      booting_Comes booting running w q = elim (Option-cases booting.error) [
        | inr (e, h) ↦
            rw (canceled_lem (machine "New") booting "Booting" w e h)
              (rw h (refl, λ r k. absurd (cc)))
        | inl h ↦
            let (w1, e1, q1) = moved booting "New" "Booting" w h refl q in
            rw e1 (rw h (running_Comes running w1 q1))
      ]

      prepared_Comes :
          (canceled : Option CtxError) (booting running : Ctx) (w : World V)
          → Comes
              (first_end canceled booting.error running.error)
              (after_prepare canceled booting running (machine "New", w) ((hosted, hooked), none))
      unfolding after_prepare
      prepared_Comes (some e) booting running w = (refl, λ r k. absurd (cc))
      prepared_Comes none booting running w =
          booting_Comes booting running (record w { host = hosted; registry = hooked }) refl

module _ {V : Type 0} (hooks : Callbacks (World V)) (hook_name : String) (logger : ℕ) where
  -- Run of the example program returns an error exactly where the context is done as the select of
  -- Subscribe takes that case, or as the first or the second transition finds it, and the error of
  -- the first of these; otherwise its machine is in Running and comes to Stopped after the signal;
  -- whatever the actions of the hooks do that leave the registry as it is, and under any name for
  -- the broadcast hook that is not empty.
  pub example_run-error_of :
      (sends : Bool) (ctx booting running : Ctx) (outside : V)
      → IsTame hooks
      → (hook_name == "") ≡ false
      → let result =
          example_run hooks typical_table hook_name logger ctx sends booting running outside in
        (error_of result ≡ first_end (greeted ctx.error sends) booting.error running.error)
        × ((r : Running V)
            → result ≡ ok r
            → (get_state r.0 ≡ "Running") × (get_state (shut_down r).0 ≡ "Stopped"))
  unfolding machine example_run subscribe_and_bring_up new_registry_with new_machine
      Config.has_state lookup new_registry
  example_run-error_of sends ctx booting running outside tame named =
      let table = state_table typical_table in
      let w : World V = record {
        registry = registry hook_name named table;
        host = new_host hook_name;
        outside = outside;
      } in
      subst
        (λ p.
          Comes hook_name named table hooks tame logger
            (first_end (greeted ctx.error sends) booting.error running.error)
            (after_prepare (greeted ctx.error sends) booting running
              (machine hook_name named table hooks tame logger "New", w) p))
        (sym (prepared hook_name named table ctx))
        (prepared_Comes hook_name named table hooks tame logger (greeted ctx.error sends) booting
          running w)
