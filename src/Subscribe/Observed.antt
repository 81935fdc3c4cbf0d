-- ===== src/Subscribe/Observed.antt =====
-- fsm.go, Subscribe, with hooks/registry.go: what the broadcast hook is given, over all calls on the
-- machine.
use go_fsm.Base.{
  ℕ, suc, ◌≡◌, ◌∙◌, refl, sym, ap, subst, inl, inr, Bool, false, Option, none, some, List, [], ◌∷◌,
  ◌++◌, ◌==◌, nat_eq, string_eq, Option-cases,
}
use go_fsm.Base.Lists.{All, All-keep}
use go_fsm.Context.{Ctx}
use go_fsm.Hooks.Entry.{HookEntry, pre, post}
use go_fsm.Hooks.Registry.{Registry}
use go_fsm.Hooks.Registry.Represents.{Represents, Log, entries}
use go_fsm.Hooks.Registry.Registered.{registered_entry}
use go_fsm.Hooks.Execute.{
  HookCall, Callbacks, GuardError, safe_call_guard, safe_call_action, run_guards, run_actions,
  collect_entries, execute_pre_transition_hooks, execute_post_transition_hooks,
}
use go_fsm.Hooks.Fifo.{fires, collect_entries-keep}
use go_fsm.Machine.{Machine}
use go_fsm.Machine.Moves.{get_state}
use go_fsm.Machine.Steps.{Call, perform_all}
use go_fsm.Machine.Chain.{Observes, IsChain, perform_all-IsChain}
use go_fsm.Machine.Wired.{registry_executor}
use go_fsm.Subscribe.Setup.{Host, IsNew, broadcast_config, prepare, prepare-collect_entries}

-- An entry that runs another action.
abbrev pub runs : ℕ → Option ℕ → Bool
runs hook none = false
runs hook (some a) = a == hook

-- `tell` reads from a world the calls of one action, in order: that action adds its call, and no
-- other callback adds one.
pub record Tells {W : Type 0} (tell : W → List HookCall) (hook : ℕ) (cb : Callbacks W)
    : Type 0 where
  pub guards_quiet : (g : ℕ) (call : HookCall) (w : W) → tell (cb.run_guard g call w).1 ≡ tell w
  pub others_quiet :
      (a : ℕ) (call : HookCall) (w : W)
      → (a == hook) ≡ false
      → tell (cb.run_action a call w).1 ≡ tell w
  pub told : (call : HookCall) (w : W) → tell (cb.run_action hook call w).1 ≡ tell w ++ call ∷ []

module _ {W : Type 0} (tell : W → List HookCall) (hook : ℕ) (cb : Callbacks W)
    (tells : Tells tell hook cb) where
  guard_quiet :
      (g : Option ℕ) (call : HookCall) (w : W) → tell (safe_call_guard cb g call w).1 ≡ tell w
  unfolding safe_call_guard
  guard_quiet none call w = refl
  guard_quiet (some g) call w = tells.guards_quiet g call w

  run_guards_quiet :
      (i : ℕ) (es : List HookEntry) (call : HookCall) (w : W)
      → tell (run_guards cb i es call w).1 ≡ tell w
  unfolding run_guards
  run_guards_quiet i [] call w = refl
  run_guards_quiet i (e ∷ es) call w = elim (Option-cases (safe_call_guard cb e.guard call w).0) [
    | inl n ↦
        rw (n, run_guards)
          (run_guards_quiet (suc i) es call (safe_call_guard cb e.guard call w).1
            ∙ guard_quiet e.guard call w)
    | inr (error, n) ↦ rw (n, run_guards) (guard_quiet e.guard call w)
  ]

  action_quiet :
      (a : Option ℕ) (call : HookCall) (w : W)
      → runs hook a ≡ false
      → tell (safe_call_action cb a call w) ≡ tell w
  unfolding safe_call_action
  action_quiet none call w h = refl
  action_quiet (some a) call w h = tells.others_quiet a call w h

  tell-run_actions :
      (es : List HookEntry) (last : HookEntry) (call : HookCall) (w : W)
      → All (λ (e : HookEntry). runs hook e.action ≡ false) es
      → last.action ≡ some hook
      → tell (run_actions cb (es ++ last ∷ []) call w) ≡ tell w ++ call ∷ []
  unfolding run_actions safe_call_action
  tell-run_actions [] last call w a q =
      ap (λ action. tell (safe_call_action cb action call w)) q ∙ tells.told call w
  tell-run_actions (e ∷ es) last call w a q =
      tell-run_actions es last call (safe_call_action cb e.action call w) a.1 q
      ∙ ap (λ l. l ++ call ∷ []) (action_quiet e.action call w a.0)

  module _ (h : Host) (r : Registry) (log : Log) (ctx : Ctx) (new : IsNew h) (v : Represents r log)
      (done : (prepare (some ctx) h r).1 ≡ none) (same : h.broadcast_hook ≡ hook)
      (fresh : All (λ (e : HookEntry). runs hook e.action ≡ false) (entries log)) where
    abbrev prepared : Registry
    prepared = (prepare (some ctx) h r).0.1

    prepared-Observes : Observes tell (registry_executor cb (λ w. prepared))
    unfolding execute_pre_transition_hooks execute_post_transition_hooks
    prepared-Observes = record {
      pre_quiet =
          λ call w. run_guards_quiet 0 (collect_entries pre prepared call.from call.to) call w;
      post_logged = λ call w.
          let others = collect_entries post r call.from call.to in
          ap (λ es. tell (run_actions cb es call w))
            (prepare-collect_entries h r log ctx call.from call.to new v done).0
          ∙ tell-run_actions others (registered_entry post r (broadcast_config h)) call w
              (subst (All (λ (e : HookEntry). runs hook e.action ≡ false))
                (sym (collect_entries-keep v post call.from call.to))
                (All-keep (λ (e : HookEntry). runs hook e.action ≡ false)
                  (fires post call.from call.to) (entries log) fresh))
              (ap some same);
    }

    -- On a machine whose executor is the registry that the first Subscribe has set up, where no
    -- other hook of it runs the broadcast hook's action, that action adds its call to an empty log
    -- and no other callback does, whatever is called and in whatever order, the broadcast hook is
    -- given changes that follow each other from the machine's first state to its last, none left
    -- out, and sees each new state as it is given it.
    pub prepared-IsChain :
        (m : Machine GuardError W) (calls : List Call) (w : W)
        → m.callbacks ≡ some (registry_executor cb (λ w. prepared))
        → tell w ≡ []
        → IsChain
            (get_state m)
            (tell (perform_all m calls w).1)
            (get_state (perform_all m calls w).0)
    prepared-IsChain m calls w q e =
        perform_all-IsChain tell (registry_executor cb (λ w. prepared)) prepared-Observes m calls w
          q e
