-- ===== src/Errors/Methods.antt =====
-- fsm.go with hooks/registry.go: what `errors.Is` tells of a transition's error.
use go_fsm.Base.{
  ℕ, ◌≡◌, ◌∙◌, refl, sym, ap, subst, inl, inr, String, Bool, false, not, ◌&&◌, List, ◌==◌,
  string_eq, beq_cases, beq_refl,
}
use go_fsm.Base.Lists.{contains}
use go_fsm.Base.Maps.{is_some}
use go_fsm.Context.{Ctx, canceled, deadline_exceeded}
use go_fsm.Hooks.Execute.{CallbackError, user_error, callback_panic, GuardError}
use go_fsm.Machine.{Machine}
use go_fsm.Machine.Moves.{Outcome, get_state, transition_if_current_state_with_context}
use go_fsm.Machine.Atomic.{
  pre_hooks, transitioned, transition-Ending, Ending, not_allowed, turned_away, done,
  transition_if_current_state_lem,
}
use go_fsm.Machine.Atomic
use go_fsm.Errors.{
  Sentinel, err_current_state_incorrect, err_invalid_state_transition, err_callback_failed,
  sentinel_eq, wraps_callback, wraps_guard, fails_with,
}

-- Client errors that do not wrap the machine's own.
abbrev pub IsForeign : (ℕ → List Sentinel) → Type 0
IsForeign client =
    (n : ℕ)
    → (contains (client n) err_current_state_incorrect ≡ false)
      × (contains (client n) err_invalid_state_transition ≡ false)

module _ (client : ℕ → List Sentinel) (foreign : IsForeign client) where
  -- A guard's error, by its cause.
  cause_lem :
      (cause : CallbackError)
      → (contains (wraps_callback client cause) err_current_state_incorrect ≡ false)
        × (contains (wraps_callback client cause) err_invalid_state_transition ≡ false)
  unfolding contains
  cause_lem (user_error n) = foreign n
  cause_lem (callback_panic p) = (refl, refl)

  module _ {W : Type 0} (m : Machine GuardError W) (ctx : Ctx) (to : String) (w : W) where
    abbrev live : Bool
    live = not (is_some ctx.error)

    abbrev allowed : Bool
    allowed = m.transitions.is_transition_allowed (get_state m) to

    abbrev refused : Bool
    refused = is_some (pre_hooks m ctx to w).0

    -- What errors.Is answers of a transition.
    Told : Outcome GuardError W → Type 0
    Told out =
        (fails_with (wraps_guard client) out.2 err_current_state_incorrect ≡ false)
        × (fails_with (wraps_guard client) out.2 err_invalid_state_transition
            ≡ (live && not allowed))
        × (fails_with (wraps_guard client) out.2 err_callback_failed
            ≡ (live && (allowed && refused)))

    Ending-Told : (out : Outcome GuardError W) → Ending m ctx to w out → Told out
    unfolding Told contains
    Ending-Told _ (Atomic.canceled canceled h) = simp h (refl, refl, refl)
    Ending-Told _ (Atomic.canceled deadline_exceeded h) = simp h (refl, refl, refl)
    Ending-Told _ (not_allowed h k) = simp h (rw k (refl, refl, refl))
    Ending-Told _ (turned_away e h k n) =
        let (a, b) = cause_lem e.cause in simp h (rw k (rw n (a, b, refl)))
    Ending-Told _ (done (h, k, n)) = simp h (rw k (rw n (refl, refl, refl)))

  -- What errors.Is answers, where the state is or is not the expected one.
  abbrev TellsOf :
      {W : Type 0} → Machine GuardError W → Ctx → String → W → Bool → Outcome GuardError W → Type 0
  TellsOf m ctx to w expected out =
      let live = not (is_some ctx.error) in
      let allowed = m.transitions.is_transition_allowed (get_state m) to in
      (fails_with (wraps_guard client) out.2 err_current_state_incorrect ≡ not expected)
      × (fails_with (wraps_guard client) out.2 err_invalid_state_transition
          ≡ (expected && (live && not allowed)))
      × (fails_with (wraps_guard client) out.2 err_callback_failed
          ≡ (expected && (live && (allowed && is_some (pre_hooks m ctx to w).0))))

  -- Of the error of TransitionIfCurrentState, on a machine whose executor's errors are a registry's
  -- and whose guards' own errors wrap neither sentinel, errors.Is finds ErrCurrentStateIncorrect
  -- exactly where the state is not the expected one, ErrInvalidStateTransition exactly where it is,
  -- the context is live and the table refuses, and ErrCallbackFailed exactly where the state, the
  -- context and the table are right and a pre-transition hook returned an error.
  pub transition_if_current_state-fails_with :
      {W : Type 0} (m : Machine GuardError W) (ctx : Ctx) (from to : String) (w : W)
      → let error = (transition_if_current_state_with_context m ctx from to w).2 in
        let expected = get_state m == from in
        let live = not (is_some ctx.error) in
        let allowed = m.transitions.is_transition_allowed (get_state m) to in
        (fails_with (wraps_guard client) error err_current_state_incorrect ≡ not expected)
        × (fails_with (wraps_guard client) error err_invalid_state_transition
            ≡ (expected && (live && not allowed)))
        × (fails_with (wraps_guard client) error err_callback_failed
            ≡ (expected && (live && (allowed && is_some (pre_hooks m ctx to w).0))))
  unfolding Told contains
  transition_if_current_state-fails_with m ctx from to w =
      elim (transition_if_current_state_lem m ctx to w from) [
        | inl (q, same) ↦ subst (TellsOf m ctx to w (get_state m == from)) (sym same) (
            rw (ap (λ s. s == from) q ∙ beq_refl from)
              (Ending-Told m ctx to w (transitioned m ctx to w) (transition-Ending m ctx to w)))
        | inr (other, same) ↦
            subst (TellsOf m ctx to w (get_state m == from)) (sym same)
              (elim (beq_cases (get_state m) from) [
                | inl (q, _) ↦ absurd (other q)
                | inr n ↦ rw n (refl, refl, refl)
              ])
      ]
