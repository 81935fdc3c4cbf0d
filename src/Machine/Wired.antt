-- ===== src/Machine/Wired.antt =====
-- fsm.go with hooks/registry.go: a machine whose executor is a registry.
use go_fsm.Base.{◌≡◌, ◌∙◌, sym, ap, subst, String, true, Option, none, some, List}
use go_fsm.Context.{Ctx}
use go_fsm.Hooks.Entry.{pre, post}
use go_fsm.Hooks.Registry.{StateTable, Registry}
use go_fsm.Hooks.Execute.{
  Callbacks, GuardError, execute_pre_transition_hooks, execute_post_transition_hooks,
}
use go_fsm.Hooks.Outcome.{GuardsRun, act_in_order}
use go_fsm.Hooks.Contract.{RegistryCall}
use go_fsm.Hooks.Contract.History.{after, due, execute_pre-GuardsRun, execute_post-act_in_order}
use go_fsm.Machine.{Executor, Machine, rejected}
use go_fsm.Machine.Moves.{Outcome, get_state, store_state, hook_call, run_pre, run_post}
use go_fsm.Machine.Atomic.{
  pre_hooks, transitioned, transition-Ending, Ending, canceled, not_allowed, turned_away, done,
}

-- A registry as a CallbackExecutor. It stands in the world, so that hooks can register and remove
-- hooks; each execution reads it as it starts.
abbrev pub registry_executor : {W : Type 0} → Callbacks W → (W → Registry) → Executor GuardError W
registry_executor cb registry = record {
  execute_pre_transition_hooks = λ call w. execute_pre_transition_hooks cb (registry w) call w;
  execute_post_transition_hooks = λ call w. execute_post_transition_hooks cb (registry w) call w;
}

module _ {W : Type 0} (cb : Callbacks W) (table : Option StateTable)
    (history : W → List RegistryCall) where
  -- The registry that the calls of a world's history have made.
  abbrev pub registry_in : W → Registry
  registry_in w = after table (history w)

  abbrev pub executor : Executor GuardError W
  executor = registry_executor cb registry_in

  -- The two endings of a transition that is neither canceled nor refused by the table: by the guards
  -- that are due in its world, and by the actions that are due in the world that they leave.
  pub data Hooked (m : Machine GuardError W) (ctx : Ctx) (to : String) (w : W)
      : Outcome GuardError W → Type 0 where
    completed :
        (w' : W)
        → GuardsRun cb
            (hook_call ctx (get_state m) to m)
            0
            (due table (history w) pre (get_state m) to)
            w
            (none, w')
        → Hooked m ctx to w (
          store_state m to,
          act_in_order cb
              (hook_call ctx (get_state m) to (store_state m to))
              (due table (history w') post (get_state m) to)
              w',
          none,
        )
    vetoed :
        (w' : W) (e : GuardError)
        → GuardsRun cb
            (hook_call ctx (get_state m) to m)
            0
            (due table (history w) pre (get_state m) to)
            w
            (some e, w')
        → Hooked m ctx to w (m, w', some (rejected e))

  module _ (m : Machine GuardError W) (wired : m.callbacks ≡ some executor) (ctx : Ctx)
      (to : String) (w : W) where
    guards_run :
        GuardsRun cb
          (hook_call ctx (get_state m) to m)
          0
          (due table (history w) pre (get_state m) to)
          w
          (pre_hooks m ctx to w)
    guards_run =
        subst
          (λ o.
            GuardsRun cb (hook_call ctx (get_state m) to m) 0
              (due table (history w) pre (get_state m) to) w
              (run_pre o (hook_call ctx (get_state m) to m) w))
          (sym wired)
          (execute_pre-GuardsRun table (history w) cb (hook_call ctx (get_state m) to m) w)

    guards_gave :
        (error : Option GuardError)
        → (pre_hooks m ctx to w).0 ≡ error
        → GuardsRun cb
            (hook_call ctx (get_state m) to m)
            0
            (due table (history w) pre (get_state m) to)
            w
            (error, (pre_hooks m ctx to w).1)
    guards_gave error q =
        subst
          (λ o.
            GuardsRun cb (hook_call ctx (get_state m) to m) 0
              (due table (history w) pre (get_state m) to) w (o, (pre_hooks m ctx to w).1))
          q guards_run

    actions_run :
        (w' : W)
        → run_post m.callbacks (hook_call ctx (get_state m) to (store_state m to)) w'
          ≡ act_in_order cb
              (hook_call ctx (get_state m) to (store_state m to))
              (due table (history w') post (get_state m) to)
              w'
    actions_run w' =
        ap (λ o. run_post o (hook_call ctx (get_state m) to (store_state m to)) w') wired
        ∙ execute_post-act_in_order table (history w') cb
            (hook_call ctx (get_state m) to (store_state m to)) w'

    Ending-Hooked :
        (out : Outcome GuardError W)
        → ctx.error ≡ none
        → m.transitions.is_transition_allowed (get_state m) to ≡ true
        → Ending m ctx to w out
        → Hooked m ctx to w out
    Ending-Hooked _ live allowed (canceled e h) = absurd (cc)
    Ending-Hooked _ live allowed (not_allowed h k) = absurd (cc)
    Ending-Hooked _ live allowed (turned_away e h k n) =
        vetoed (pre_hooks m ctx to w).1 e (guards_gave (some e) n)
    Ending-Hooked _ live allowed (done c) =
        subst (λ w'. Hooked m ctx to w (store_state m to, w', none))
          (sym (actions_run (pre_hooks m ctx to w).1))
          (completed (pre_hooks m ctx to w).1 (guards_gave none c.2))

    -- For a machine whose executor is a registry after any calls, a transition that the table
    -- allows, with a live context, runs the guards that the registrations have due, in order of
    -- registration, up to the first that fails or panics, and then keeps the machine and returns
    -- that guard's error; where all pass, the state changes and every action due runs in order and
    -- sees the new state.
    pub transition-Hooked :
        ctx.error ≡ none
        → m.transitions.is_transition_allowed (get_state m) to ≡ true
        → Hooked m ctx to w (transitioned m ctx to w)
    transition-Hooked live allowed =
        Ending-Hooked (transitioned m ctx to w) live allowed (transition-Ending m ctx to w)
