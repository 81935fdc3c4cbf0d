-- ===== src/Hooks/Outcome.antt =====
-- What running a list of guards or actions comes to (hooks/registry.go), told over the functions
-- alone: which ran, in which order, and in which world each of them.
use go_fsm.Base.{
  ℕ, suc, ◌+◌, ◌≡◌, refl, ap, Option, none, some, List, [], ◌∷◌, ◌++◌, map, inl, inr, Option-cases,
  arith,
}
use go_fsm.Base.Lists.{length}
use go_fsm.Hooks.Entry.{HookEntry}
use go_fsm.Hooks.Execute.{
  HookCall, Callbacks, GuardError, safe_call_guard, safe_call_action, run_guards, run_actions,
}

module _ {W : Type 0} (cb : Callbacks W) (call : HookCall) where
  -- Each guard passes, in the world that the one before it left.
  pub data Passes : List (Option ℕ) → W → W → Type 0 where
    nil : {w : W} → Passes [] w w
    cons :
        {f : Option ℕ} {fs : List (Option ℕ)} {w w' w'' : W}
        → safe_call_guard cb f call w ≡ (none, w')
        → Passes fs w' w''
        → Passes (f ∷ fs) w w''

  -- Either all guards pass, or those before one pass, it fails with the cause, and the others do
  -- not run: the last world is the one that it left.
  pub data GuardsRun (i : ℕ) (fs : List (Option ℕ)) (w : W) : Option GuardError × W → Type 0 where
    all_passed : {w' : W} → Passes fs w w' → GuardsRun i fs w (none, w')
    stopped :
        {w' w'' : W} {e : GuardError} (before after : List (Option ℕ)) (f : Option ℕ)
        → fs ≡ before ++ f ∷ after
        → Passes before w w'
        → safe_call_guard cb f call w' ≡ (some e.cause, w'')
        → e.index ≡ i + length before
        → GuardsRun i fs w (some e, w'')

  GuardsRun-cons :
      {i : ℕ} {fs : List (Option ℕ)} {w w' : W} {out : Option GuardError × W} (f : Option ℕ)
      → safe_call_guard cb f call w ≡ (none, w')
      → GuardsRun (suc i) fs w' out
      → GuardsRun i (f ∷ fs) w out
  GuardsRun-cons f q (all_passed p) = all_passed (cons q p)
  GuardsRun-cons f q (stopped before after g e p c n) =
      stopped (f ∷ before) after g (ap (λ l. f ∷ l) e) (cons q p) c (omega (arith, n))

  abbrev guards : List HookEntry → List (Option ℕ)
  guards = map (λ (e : HookEntry). e.guard)

  -- The loop over guards, entry by entry.
  pub run_guards-GuardsRun :
      (i : ℕ) (entries : List HookEntry) (w : W)
      → GuardsRun i (guards entries) w (run_guards cb i entries call w)
  unfolding run_guards
  run_guards-GuardsRun i [] w = all_passed nil
  run_guards-GuardsRun i (e ∷ es) w =
      let (r, w') = safe_call_guard cb e.guard call w in
      elim (Option-cases r) [
        | inl n ↦
            let q : safe_call_guard cb e.guard call w ≡ (none, w') = λ i. (n i, w') in
            rw (n, run_guards) (GuardsRun-cons e.guard q (run_guards-GuardsRun (suc i) es w'))
        | inr (c, n) ↦
            let q : safe_call_guard cb e.guard call w ≡ (some c, w') = λ i. (n i, w') in
            rw (n, run_guards) (stopped [] (guards es) e.guard refl nil q (omega arith))
      ]

  -- Every action runs, in order, whatever the others do; one that panics leaves its world.
  abbrev pub act_in_order : List (Option ℕ) → W → W
  act_in_order [] w = w
  act_in_order (f ∷ fs) w = act_in_order fs (safe_call_action cb f call w)

  pub run_actions-act_in_order :
      (entries : List HookEntry) (w : W)
      → run_actions cb entries call w ≡ act_in_order (map (λ (e : HookEntry). e.action) entries) w
  unfolding run_actions
  run_actions-act_in_order [] w = refl
  run_actions-act_in_order (e ∷ es) w =
      run_actions-act_in_order es (safe_call_action cb e.action call w)
