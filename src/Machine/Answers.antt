-- ===== src/Machine/Answers.antt =====
-- fsm.go: what each of the methods that change the state does and returns, and when.
use go_fsm.Base.{
  ◌≡◌, ◌≢◌, ◌↔◌, ◌∙◌, refl, ap, subst, inl, inr, String, true, false, none, some, Option-cases,
  Bool-cases,
}
use go_fsm.Context.{Ctx, CtxError}
use go_fsm.Machine.{
  Machine, MachineError, set_state_canceled, state_undefined, transition_canceled,
  transition_not_allowed, current_state_incorrect, rejected,
}
use go_fsm.Machine.Moves.{
  transition_with_context, allowed_transition, Outcome, get_state, set_state_with_context,
}
use go_fsm.Machine.Atomic.{
  pre_hooks, changed, transitioned, stated, transition-Ending, Ending, canceled, not_allowed,
  turned_away, done, transition-none_iff, transition-changed, transition_if_current_state_lem,
}
use go_fsm.Machine.Steps.{Call, set, move, move_from, perform}

abbrev pub context : Call → Ctx
context (set ctx to) = ctx
context (move ctx to) = ctx
context (move_from ctx from to) = ctx

abbrev pub target : Call → String
target (set ctx to) = to
target (move ctx to) = to
target (move_from ctx from to) = to

-- The call may follow the table from the state: SetState never does.
abbrev pub Follows : Call → String → Type 0
Follows (set ctx to) s = ⊥
Follows (move ctx to) s = Unit
Follows (move_from ctx from to) s = s ≡ from

module _ {E W : Type 0} where
  -- A call is turned down before anything runs, with an error.
  pub data Refuses (m : Machine E W) : Call → MachineError E → Type 0 where
    stale :
        (ctx : Ctx) (from to : String)
        → get_state m ≢ from
        → Refuses m (move_from ctx from to) (current_state_incorrect (get_state m) from to)
    late :
        (call : Call) (e : CtxError)
        → Follows call (get_state m)
        → (context call).error ≡ some e
        → Refuses m call (transition_canceled e)
    no_edge :
        (call : Call)
        → Follows call (get_state m)
        → (context call).error ≡ none
        → m.transitions.is_transition_allowed (get_state m) (target call) ≡ false
        → Refuses m call (transition_not_allowed (get_state m) (target call))
    set_late :
        (ctx : Ctx) (to : String) (e : CtxError)
        → ctx.error ≡ some e
        → Refuses m (set ctx to) (set_state_canceled e)
    unknown :
        (ctx : Ctx) (to : String)
        → ctx.error ≡ none
        → m.transitions.has_state to ≡ false
        → Refuses m (set ctx to) (state_undefined to)

  -- The table and the context let the call come to the hooks.
  abbrev pub IsAdmitted : Machine E W → Call → Type 0
  IsAdmitted m call =
      Follows call (get_state m)
      × ((context call).error ≡ none)
      × (m.transitions.is_transition_allowed (get_state m) (target call) ≡ true)

  -- What a call does with the machine and the world, and what it returns.
  pub data Answers (m : Machine E W) (w : W) (call : Call) : Outcome E W → Type 0 where
    refuse : (error : MachineError E) → Refuses m call error → Answers m w call (m, w, some error)
    reject :
        (e : E)
        → IsAdmitted m call
        → (pre_hooks m (context call) (target call) w).0 ≡ some e
        → Answers m w call (m, (pre_hooks m (context call) (target call) w).1, some (rejected e))
    transit :
        IsAdmitted m call
        → (pre_hooks m (context call) (target call) w).0 ≡ none
        → Answers m w call (
            changed m (context call) (target call) w (pre_hooks m (context call) (target call) w).1)
    override :
        (ctx : Ctx) (to : String)
        → call ≡ set ctx to
        → ctx.error ≡ none
        → m.transitions.has_state to ≡ true
        → Answers m w call (changed m ctx to w w)

  Ending-Answers :
      (m : Machine E W) (w : W) (call : Call) (out : Outcome E W)
      → Follows call (get_state m)
      → Ending m (context call) (target call) w out
      → Answers m w call out
  Ending-Answers m w call _ f (canceled e h) = refuse (transition_canceled e) (late call e f h)
  Ending-Answers m w call _ f (not_allowed h k) =
      refuse (transition_not_allowed (get_state m) (target call)) (no_edge call f h k)
  Ending-Answers m w call _ f (turned_away e h k n) = reject e (f, h, k) n
  Ending-Answers m w call _ f (done c) = transit (f, c.0, c.1) c.2

  stated-Answers :
      (m : Machine E W) (w : W) (ctx : Ctx) (to : String)
      → Answers m w (set ctx to) (stated m ctx to w)
  unfolding set_state_with_context
  stated-Answers m w ctx to = elim (Option-cases ctx.error) [
    | inr (e, h) ↦
        simp (h, set_state_with_context) (refuse (set_state_canceled e) (set_late ctx to e h))
    | inl h ↦ elim (Bool-cases (m.transitions.has_state to)) [
      | inr k ↦
          simp (h, set_state_with_context) (rw k (refuse (state_undefined to) (unknown ctx to h k)))
      | inl k ↦ simp (h, set_state_with_context) (rw k (override ctx to refl h k))
    ]
  ]

  performed-Answers : (m : Machine E W) (call : Call) (w : W) → Answers m w call (perform m call w)
  unfolding perform
  performed-Answers m (set ctx to) w = stated-Answers m w ctx to
  performed-Answers m (move ctx to) w =
      Ending-Answers m w (move ctx to) (transitioned m ctx to w) tt (transition-Ending m ctx to w)
  performed-Answers m (move_from ctx from to) w =
      elim (transition_if_current_state_lem m ctx to w from) [
        | inl (f, q) ↦ rw q (
            Ending-Answers m w (move_from ctx from to) (transitioned m ctx to w) f
              (transition-Ending m ctx to w))
        | inr (n, q) ↦
            rw q (refuse (current_state_incorrect (get_state m) from to) (stale ctx from to n))
      ]

  -- A transition whose context is done.
  pub canceled_lem :
      (m : Machine E W) (ctx : Ctx) (to : String) (w : W) (e : CtxError)
      → ctx.error ≡ some e
      → transitioned m ctx to w ≡ (m, w, some (transition_canceled e))
  unfolding transition_with_context
  canceled_lem m ctx to w e h = simp (h, transition_with_context) refl

  not_allowed_lem :
      (m : Machine E W) (ctx : Ctx) (to : String) (w : W)
      → ctx.error ≡ none
      → m.transitions.is_transition_allowed (get_state m) to ≡ false
      → transitioned m ctx to w ≡ (m, w, some (transition_not_allowed (get_state m) to))
  unfolding transition_with_context
  not_allowed_lem m ctx to w h k = simp (h, transition_with_context) (rw k refl)

  rejected_lem :
      (m : Machine E W) (ctx : Ctx) (to : String) (w : W) (e : E)
      → ctx.error ≡ none
      → m.transitions.is_transition_allowed (get_state m) to ≡ true
      → (pre_hooks m ctx to w).0 ≡ some e
      → transitioned m ctx to w ≡ (m, (pre_hooks m ctx to w).1, some (rejected e))
  unfolding transition_with_context allowed_transition
  rejected_lem m ctx to w e h k n =
      simp (h, transition_with_context) (rw k (rw (n, allowed_transition) refl))

  -- A call that follows the table is a transition.
  performed_as :
      (m : Machine E W) (call : Call) (w : W)
      → Follows call (get_state m)
      → perform m call w ≡ transitioned m (context call) (target call) w
  unfolding perform
  performed_as m (set ctx to) w f = absurd f
  performed_as m (move ctx to) w f = refl
  performed_as m (move_from ctx from to) w f =
      elim (transition_if_current_state_lem m ctx to w from) [
        | inl (_, q) ↦ q
        | inr (n, _) ↦ absurd (n f)
      ]

  refused_lem :
      (m : Machine E W) (call : Call) (w : W) (error : MachineError E)
      → Refuses m call error
      → perform m call w ≡ (m, w, some error)
  unfolding perform set_state_with_context
  refused_lem m _ w _ (stale ctx from to n) =
      elim (transition_if_current_state_lem m ctx to w from) [
        | inl (f, _) ↦ absurd (n f)
        | inr (_, q) ↦ q
      ]
  refused_lem m _ w _ (late call e f h) =
      performed_as m call w f ∙ canceled_lem m (context call) (target call) w e h
  refused_lem m _ w _ (no_edge call f h k) =
      performed_as m call w f ∙ not_allowed_lem m (context call) (target call) w h k
  refused_lem m _ w _ (set_late ctx to e h) = simp (h, set_state_with_context) refl
  refused_lem m _ w _ (unknown ctx to h k) = simp (h, set_state_with_context) (rw k refl)

  answered :
      (m : Machine E W) (call : Call) (w : W) (out : Outcome E W)
      → Answers m w call out
      → perform m call w ≡ out
  unfolding perform set_state_with_context
  answered m call w _ (refuse error r) = refused_lem m call w error r
  answered m call w _ (reject e (f, h, k) n) =
      performed_as m call w f ∙ rejected_lem m (context call) (target call) w e h k n
  answered m call w _ (transit (f, h, k) n) =
      performed_as m call w f
      ∙ transition-changed m (context call) (target call) w
          ((transition-none_iff m (context call) (target call) w).1 (h, k, n))
  answered m call w _ (override ctx to q h k) =
      ap (λ call. perform m call w) q ∙ simp (h, set_state_with_context) (rw k refl)

  -- A call comes to an outcome, of the machine, the world and the error, exactly where the
  -- specification has it, in one of these ways: it refuses with the error that says why, before any
  -- hook runs and with nothing changed; or the table and a live context admit it, and either a
  -- pre-transition hook fails, whose error it returns with the machine as it was, or all pass, and
  -- it stores the target, runs the post-transition hooks and returns no error; or it is SetState to
  -- a state of the table with a live context, which runs no pre-transition hook, stores the state
  -- and runs the post-transition hooks.
  pub perform-Answers :
      (m : Machine E W) (call : Call) (w : W) (out : Outcome E W)
      → (perform m call w ≡ out) ↔ Answers m w call out
  perform-Answers m call w out =
      ((λ q. subst (Answers m w call) q (performed-Answers m call w)), answered m call w out)
