-- ===== src/Machine/Moves.antt =====
-- fsm.go: the methods of the machine. Its mutex makes each method one atomic step, which takes the
-- machine and the world that hooks run in, and returns both with the method's error.
use go_fsm.Base.{
  String, Bool, true, false, not, Option, none, some, List, [], ◌∷◌, ◌==◌, string_eq, if◌then◌else◌,
}
use go_fsm.Base.Lists.{keep}
use go_fsm.Base.Maps.{is_some}
use go_fsm.Base.Sort.{sort}
use go_fsm.Base.Text.{str_leb}
use go_fsm.Context.{Ctx, background}
use go_fsm.Hooks.Execute.{HookCall}
use go_fsm.Machine.{
  Executor, Machine, MachineError, set_state_canceled, state_undefined, transition_canceled,
  transition_not_allowed, current_state_incorrect, rejected,
}

-- What a method that can change the state returns.
abbrev pub Outcome : Type 0 → Type 0 → Type 0
Outcome E W = Machine E W × W × Option (MachineError E)

unfoldable pub none_allowed : (String → Bool) → List String → Bool
none_allowed allowed [] = true
none_allowed allowed (s ∷ ss) =
    let rest = none_allowed allowed ss in if allowed s then false else rest

module _ {E W : Type 0} where
  -- GetState
  abbrev pub get_state : Machine E W → String
  get_state m = elim m.state [ none ↦ "" | some s ↦ s ]

  -- setState
  abbrev pub store_state : Machine E W → String → Machine E W
  store_state m s = record m { state = some s }

  -- IsTransitionAllowed
  unfoldable pub is_transition_allowed : Machine E W → String → Bool
  is_transition_allowed m to_state = m.transitions.is_transition_allowed (get_state m) to_state

  -- AvailableTransitions
  unfoldable pub available_transitions : Machine E W → List String
  available_transitions m =
      sort str_leb
        (keep (m.transitions.is_transition_allowed (get_state m)) m.transitions.get_all_states)

  -- IsTerminal
  unfoldable pub is_terminal : Machine E W → Bool
  unfolding none_allowed
  is_terminal m =
      none_allowed (m.transitions.is_transition_allowed (get_state m)) m.transitions.get_all_states

  -- A hook's arguments; it sees the state that the machine has while it runs.
  abbrev pub hook_call : Ctx → String → String → Machine E W → HookCall
  hook_call ctx from to m = record { ctx = ctx; from = from; to = to; seen = get_state m }

  abbrev pub run_post : Option (Executor E W) → HookCall → W → W
  run_post none call w = w
  run_post (some callbacks) call w = callbacks.execute_post_transition_hooks call w

  -- SetStateWithContext
  unfoldable pub set_state_with_context : Machine E W → Ctx → String → W → Outcome E W
  set_state_with_context m ctx state w = elim ctx.error [
    | some e ↦ (m, w, some (set_state_canceled e))
    | none ↦
        if not (m.transitions.has_state state)
        then (m, w, some (state_undefined state))
        else (let m' = store_state m state in
            (m', run_post m.callbacks (hook_call ctx (get_state m) state m') w, none))
  ]

  -- SetState
  abbrev pub set_state : Machine E W → String → W → Outcome E W
  set_state m = set_state_with_context m background

  abbrev pub run_pre : Option (Executor E W) → HookCall → W → Option E × W
  run_pre none call w = (none, w)
  run_pre (some callbacks) call w = callbacks.execute_pre_transition_hooks call w

  -- transition, after its test of the table.
  unfoldable pub allowed_transition : Machine E W → Ctx → String → W → Outcome E W
  allowed_transition m ctx to_state w =
      let (error, w') = run_pre m.callbacks (hook_call ctx (get_state m) to_state m) w in
      elim error [
        | some e ↦ (m, w', some (rejected e))
        | none ↦
            let m' = store_state m to_state in
            (m', run_post m.callbacks (hook_call ctx (get_state m) to_state m') w', none)
      ]

  -- transition, and TransitionWithContext, which adds the lock.
  unfoldable pub transition_with_context : Machine E W → Ctx → String → W → Outcome E W
  unfolding allowed_transition
  transition_with_context m ctx to_state w = elim ctx.error [
    | some e ↦ (m, w, some (transition_canceled e))
    | none ↦
        if not (m.transitions.is_transition_allowed (get_state m) to_state)
        then (m, w, some (transition_not_allowed (get_state m) to_state))
        else allowed_transition m ctx to_state w
  ]

  -- Transition
  abbrev pub transition : Machine E W → String → W → Outcome E W
  transition m = transition_with_context m background

  -- TransitionBoolWithContext; TransitionBool is this at `background`.
  unfoldable pub transition_bool_with_context :
      Machine E W → Ctx → String → W → Machine E W × W × Bool
  transition_bool_with_context m ctx to_state w =
      let (m', w', error) = transition_with_context m ctx to_state w in
      (m', w', not (is_some error))

  -- TransitionIfCurrentStateWithContext
  unfoldable pub transition_if_current_state_with_context :
      Machine E W → Ctx → String → String → W → Outcome E W
  transition_if_current_state_with_context m ctx from_state to_state w =
      if not (get_state m == from_state)
      then (m, w, some (current_state_incorrect (get_state m) from_state to_state))
      else transition_with_context m ctx to_state w

  -- TransitionIfCurrentState
  abbrev pub transition_if_current_state : Machine E W → String → String → W → Outcome E W
  transition_if_current_state m = transition_if_current_state_with_context m background
