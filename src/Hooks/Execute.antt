-- ===== src/Hooks/Execute.antt =====
-- hooks/registry.go: the executors, with panic recovery.
-- Guards and actions are the client's code. They run in a world `W` that they may change in any
-- way: it can hold the registry itself, which an executor reads before its first call only.
use go_fsm.Base.{ℕ, suc, String, Option, none, some, List, [], ◌∷◌, ◌++◌}
use go_fsm.Base.Lists.{keep}
use go_fsm.Base.Maps.{get_or}
use go_fsm.Base.Sort.{sort}
use go_fsm.Context.{Ctx}
use go_fsm.Hooks.Entry.{HookEntry, HookType, pre, post, key_eq, matches, seq_leb}
use go_fsm.Hooks.Registry.{Registry, index_of, wildcard_of}

-- The arguments of a hook. `seen` is what the machine's lock-free GetState answers while the hook
-- runs; no hook can change it, since every writer takes the mutex that the caller holds.
pub record HookCall : Type 0 where
  pub ctx : Ctx
  pub from : String
  pub to : String
  pub seen : String

pub data PanicValue : Type 0 where
  nil_dereference : PanicValue
  value : ℕ → PanicValue

-- What a call of a guard, or of an action, comes to. An error value is named by a number.
pub data GuardOutcome : Type 0 where
  passed : GuardOutcome
  failed : ℕ → GuardOutcome
  panicked : ℕ → GuardOutcome

pub data ActionOutcome : Type 0 where
  returned : ActionOutcome
  panicked : ℕ → ActionOutcome

-- The client's functions.
pub record Callbacks (W : Type 0) : Type 0 where
  pub run_guard : ℕ → HookCall → W → GuardOutcome × W
  pub run_action : ℕ → HookCall → W → ActionOutcome × W

-- The error of safeCallGuard: the guard's own, or ErrCallbackPanic with the panic's value.
pub data CallbackError : Type 0 where
  user_error : ℕ → CallbackError
  callback_panic : PanicValue → CallbackError

-- ErrCallbackFailed, at an index.
pub record GuardError : Type 0 where
  pub index : ℕ
  pub cause : CallbackError

abbrev outcome_error : GuardOutcome → Option CallbackError
outcome_error GuardOutcome.passed = none
outcome_error (GuardOutcome.failed e) = some (user_error e)
outcome_error (GuardOutcome.panicked p) = some (callback_panic (value p))

module _ {W : Type 0} (cb : Callbacks W) where
  -- safeCallGuard
  unfoldable pub safe_call_guard : Option ℕ → HookCall → W → Option CallbackError × W
  safe_call_guard none call w = (some (callback_panic nil_dereference), w)
  safe_call_guard (some g) call w =
      let (outcome, w') = cb.run_guard g call w in (outcome_error outcome, w')

  -- safeCallAction: a panic is logged, and goes no further.
  unfoldable pub safe_call_action : Option ℕ → HookCall → W → W
  safe_call_action none call w = w
  safe_call_action (some a) call w = (cb.run_action a call w).1

  -- `for i, entry := range entries` over guards: the first error ends the loop.
  unfoldable pub run_guards : ℕ → List HookEntry → HookCall → W → Option GuardError × W
  run_guards i [] call w = (none, w)
  run_guards i (entry ∷ entries) call w =
      let (error, w') = safe_call_guard entry.guard call w in
      elim error [
        | some e ↦ (some (record { index = i; cause = e }), w')
        | none ↦ run_guards (suc i) entries call w'
      ]

  -- The loop over actions.
  unfoldable pub run_actions : List HookEntry → HookCall → W → W
  run_actions [] call w = w
  run_actions (entry ∷ entries) call w =
      run_actions entries call (safe_call_action entry.action call w)

-- The entries that the executors run: the indexed ones alone where there is no wildcard hook,
-- or else with the matching wildcard hooks, sorted by registration.
unfoldable pub merge_entries : String → String → List HookEntry → List HookEntry → List HookEntry
merge_entries from to concrete [] = concrete
merge_entries from to concrete (e ∷ wildcard) =
    sort seq_leb (concrete ++ keep (matches from to) (e ∷ wildcard))

unfoldable pub collect_entries : HookType → Registry → String → String → List HookEntry
unfolding merge_entries
collect_entries t r from to =
    merge_entries from to (get_or [] (record { from = from; to = to }) (index_of t r))
      (wildcard_of t r)

-- ExecutePreTransitionHooks
unfoldable pub execute_pre_transition_hooks :
    {W : Type 0} → Callbacks W → Registry → HookCall → W → Option GuardError × W
execute_pre_transition_hooks cb r call w =
    run_guards cb 0 (collect_entries pre r call.from call.to) call w

-- ExecutePostTransitionHooks
unfoldable pub execute_post_transition_hooks :
    {W : Type 0} → Callbacks W → Registry → HookCall → W → W
execute_post_transition_hooks cb r call w =
    run_actions cb (collect_entries post r call.from call.to) call w
