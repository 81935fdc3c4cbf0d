-- ===== src/Machine/Chain.antt =====
-- fsm.go: what an observer that logs the post-transition hooks of a machine sees.
use go_fsm.Base.{
  ◌≡◌, ◌∙◌, refl, sym, ap, subst, String, Bool, true, false, Option, some, List, [], ◌∷◌, ◌++◌,
}
use go_fsm.Base.Lists.{All, All-append}
use go_fsm.Hooks.Execute.{HookCall}
use go_fsm.Machine.{Executor, Machine}
use go_fsm.Machine.Moves.{get_state, run_pre, run_post, hook_call, store_state}
use go_fsm.Machine.Atomic.{pre_hooks}
use go_fsm.Machine.Steps.{Call, is_guarded, perform_all, refuse, reject, transit, override}
use go_fsm.Machine.Reach.{IsKept, allowed_at, perform_all-keeps, perform_all-keeps_guarded}

-- The logged calls lead from a state to a state, each from where the one before it went, and each
-- finds the machine in the state that it announces.
abbrev pub IsChain : String → List HookCall → String → Type 0
IsChain s [] t = s ≡ t
IsChain s (call ∷ calls) t = (s ≡ call.from) × (call.seen ≡ call.to) × IsChain call.to calls t

IsChain-snoc :
    (s t : String) (calls : List HookCall) (call : HookCall)
    → IsChain s calls t
    → t ≡ call.from
    → call.seen ≡ call.to
    → IsChain s (calls ++ call ∷ []) call.to
IsChain-snoc s t [] call k q h = (k ∙ q, h, refl)
IsChain-snoc s t (c ∷ calls) call k q h = (k.0, k.1, IsChain-snoc c.to t calls call k.2 q h)

-- The executor's post-transition hooks log each of their calls, and its pre-transition hooks none.
pub record Observes {E W : Type 0} (log : W → List HookCall) (callbacks : Executor E W)
    : Type 0 where
  pub pre_quiet :
      (call : HookCall) (w : W) → log (callbacks.execute_pre_transition_hooks call w).1 ≡ log w
  pub post_logged :
      (call : HookCall) (w : W)
      → log (callbacks.execute_post_transition_hooks call w) ≡ log w ++ call ∷ []

module _ {E W : Type 0} (log : W → List HookCall) (callbacks : Executor E W)
    (observes : Observes log callbacks) where
  pre_log :
      (o : Option (Executor E W)) (call : HookCall) (w : W)
      → o ≡ some callbacks
      → log (run_pre o call w).1 ≡ log w
  pre_log o call w q = ap (λ o. log (run_pre o call w).1) q ∙ observes.pre_quiet call w

  post_log :
      (o : Option (Executor E W)) (call : HookCall) (w : W)
      → o ≡ some callbacks
      → log (run_post o call w) ≡ log w ++ call ∷ []
  post_log o call w q = ap (λ o. log (run_post o call w)) q ∙ observes.post_logged call w

  -- The log after a change of the state, from a world whose log is the one before the call.
  changed_log :
      (m : Machine E W) (call : HookCall) (w w' : W)
      → m.callbacks ≡ some callbacks
      → log w' ≡ log w
      → log (run_post m.callbacks call w') ≡ log w ++ call ∷ []
  changed_log m call w w' q h = post_log m.callbacks call w' q ∙ ap (λ l. l ++ call ∷ []) h

  abbrev IsLogged : String → Machine E W → W → Type 0
  IsLogged s m w = (m.callbacks ≡ some callbacks) × IsChain s (log w) (get_state m)

  IsLogged-IsKept : (s : String) (g : Bool) → IsKept g (IsLogged s)
  IsLogged-IsKept s g _ _ _ _ refuse k = k
  IsLogged-IsKept s g m w _ _ (reject ctx to h e n) k = (
    k.0,
    subst (λ l. IsChain s l (get_state m))
        (sym (pre_log m.callbacks (hook_call ctx (get_state m) to m) w k.0)) k.1,
  )
  IsLogged-IsKept s g m w _ _ (transit ctx to h n) k =
      let call = hook_call ctx (get_state m) to (store_state m to) in
      (
        k.0,
        subst (λ l. IsChain s l to)
            (sym (
              changed_log m call w (pre_hooks m ctx to w).1 k.0
                (pre_log m.callbacks (hook_call ctx (get_state m) to m) w k.0)))
            (IsChain-snoc s (get_state m) (log w) call k.1 refl refl),
      )
  IsLogged-IsKept s g m w _ _ (override ctx to h) k =
      let call = hook_call ctx (get_state m) to (store_state m to) in
      (
        k.0,
        subst (λ l. IsChain s l to) (sym (changed_log m call w w k.0 refl))
            (IsChain-snoc s (get_state m) (log w) call k.1 refl refl),
      )

  -- Whatever is called and in whatever order, the post-transition hooks of an executor that logs
  -- each of them, from an empty log, tell of changes that follow each other from the machine's
  -- first state to its last, none left out, and each hook saw the state that it was told of.
  pub perform_all-IsChain :
      (m : Machine E W) (calls : List Call) (w : W)
      → m.callbacks ≡ some callbacks
      → log w ≡ []
      → IsChain (get_state m) (log (perform_all m calls w).1) (get_state (perform_all m calls w).0)
  perform_all-IsChain m calls w q h =
      (perform_all-keeps (IsLogged (get_state m)) (IsLogged-IsKept (get_state m) true)
        (IsLogged-IsKept (get_state m) false) m calls w
        (q, subst (λ l. IsChain (get_state m) l (get_state m)) (sym h) refl)).1

  abbrev IsAllowed : Machine E W → HookCall → Type 0
  IsAllowed m call = m.transitions.is_transition_allowed call.from call.to ≡ true

  abbrev IsAllowedLog : Machine E W → Machine E W → W → Type 0
  IsAllowedLog m m' w =
      (m'.callbacks ≡ some callbacks) × (m'.transitions ≡ m.transitions) × All (IsAllowed m) (log w)

  IsAllowedLog-IsKept : (m : Machine E W) → IsKept true (IsAllowedLog m)
  IsAllowedLog-IsKept m _ _ _ _ refuse k = k
  IsAllowedLog-IsKept m n w _ _ (reject ctx to h e _) k = (
    k.0,
    k.1,
    subst (All (IsAllowed m)) (sym (pre_log n.callbacks (hook_call ctx (get_state n) to n) w k.0))
        k.2,
  )
  IsAllowedLog-IsKept m n w _ _ (transit ctx to h _) k =
      let call = hook_call ctx (get_state n) to (store_state n to) in
      (
        k.0,
        k.1,
        subst (All (IsAllowed m))
            (sym (
              changed_log n call w (pre_hooks n ctx to w).1 k.0
                (pre_log n.callbacks (hook_call ctx (get_state n) to n) w k.0)))
            (All-append (IsAllowed m) (log w) (call ∷ []) k.2
              (allowed_at k.1 (get_state n) to h, tt)),
      )

  -- Without SetState, every change that the post-transition hooks of an executor that logs each of
  -- them, from an empty log, are told of is one that the table allows.
  pub perform_all-log_allowed :
      (m : Machine E W) (calls : List Call) (w : W)
      → All (λ call. is_guarded call ≡ true) calls
      → m.callbacks ≡ some callbacks
      → log w ≡ []
      → All
          (λ (call : HookCall). m.transitions.is_transition_allowed call.from call.to ≡ true)
          (log (perform_all m calls w).1)
  perform_all-log_allowed m calls w guarded q h =
      (perform_all-keeps_guarded (IsAllowedLog m) (IsAllowedLog-IsKept m) m calls w guarded
        (q, refl, subst (All (IsAllowed m)) (sym h) tt)).2
