-- ===== src/Machine/Steps.antt =====
-- fsm.go: the calls that can change a machine, and the steps that a machine can take.
use go_fsm.Base.{◌≡◌, inl, inr, String, Bool, true, false, none, some, List, [], ◌∷◌, Option-cases}
use go_fsm.Context.{Ctx}
use go_fsm.Machine.{Machine}
use go_fsm.Machine.Moves.{
  Outcome, get_state, set_state_with_context, transition_with_context,
  transition_if_current_state_with_context,
}
use go_fsm.Machine.Atomic.{
  pre_hooks, changed, transitioned, stated, transition-Ending, Ending, canceled, not_allowed,
  turned_away, done, set_state_lem, transition_if_current_state_lem,
}

-- The exported methods that change the state: the others are one of these at `background`, or the
-- Boolean form of one.
pub data Call : Type 0 where
  set : Ctx → String → Call
  move : Ctx → String → Call
  move_from : Ctx → String → String → Call

-- Whether a call follows the table.
abbrev pub is_guarded : Call → Bool
is_guarded (set ctx s) = false
is_guarded (move ctx to) = true
is_guarded (move_from ctx from to) = true

module _ {E W : Type 0} where
  unfoldable pub perform : Machine E W → Call → W → Outcome E W
  perform m (set ctx s) w = set_state_with_context m ctx s w
  perform m (move ctx to) w = transition_with_context m ctx to w
  perform m (move_from ctx from to) w = transition_if_current_state_with_context m ctx from to w

  -- The mutex orders the calls of all goroutines: a list of calls is one such order.
  unfoldable pub perform_all : Machine E W → List Call → W → Machine E W × W
  unfolding perform
  perform_all m [] w = (m, w)
  perform_all m (call ∷ calls) w = let (m', w', _) = perform m call w in perform_all m' calls w'

  -- The steps of a machine, with the world: whether a step may override the table is its index.
  pub data Step (m : Machine E W) (w : W) : Bool → Machine E W → W → Type 0 where
    refuse : {guarded : Bool} → Step m w guarded m w
    reject :
        (ctx : Ctx) (to : String)
        → m.transitions.is_transition_allowed (get_state m) to ≡ true
        → (e : E) → (pre_hooks m ctx to w).0 ≡ some e
        → Step m w true m (pre_hooks m ctx to w).1
    transit :
        (ctx : Ctx) (to : String)
        → m.transitions.is_transition_allowed (get_state m) to ≡ true
        → (pre_hooks m ctx to w).0 ≡ none
        → Step m w true
            (changed m ctx to w (pre_hooks m ctx to w).1).0
            (changed m ctx to w (pre_hooks m ctx to w).1).1
    override :
        (ctx : Ctx) (to : String)
        → m.transitions.has_state to ≡ true
        → Step m w false (changed m ctx to w w).0 (changed m ctx to w w).1

  Ending-Step :
      (m : Machine E W) (ctx : Ctx) (to : String) (w : W) (out : Outcome E W)
      → Ending m ctx to w out
      → Step m w true out.0 out.1
  Ending-Step m ctx to w _ (canceled e h) = refuse
  Ending-Step m ctx to w _ (not_allowed h k) = refuse
  Ending-Step m ctx to w _ (turned_away e h k n) = reject ctx to k e n
  Ending-Step m ctx to w _ (done c) = transit ctx to c.1 c.2

  transition-Step :
      (m : Machine E W) (ctx : Ctx) (to : String) (w : W)
      → Step m w true (transitioned m ctx to w).0 (transitioned m ctx to w).1
  transition-Step m ctx to w =
      Ending-Step m ctx to w (transitioned m ctx to w) (transition-Ending m ctx to w)

  set_state-Step :
      (m : Machine E W) (ctx : Ctx) (to : String) (w : W)
      → Step m w false (stated m ctx to w).0 (stated m ctx to w).1
  set_state-Step m ctx to w =
      let (clear, success, failure) = set_state_lem m ctx to w in
      elim (Option-cases (stated m ctx to w).2) [
        | inl n ↦ rw (success n) (override ctx to (clear.0 n).1)
        | inr (e, n) ↦ let (q, p) = failure (λ k. cc) in rw q (rw p refuse)
      ]

  -- Each call takes one of the steps: what decides which, and what it returns, is in Answers.
  pub perform-Step :
      (m : Machine E W) (call : Call) (w : W)
      → Step m w (is_guarded call) (perform m call w).0 (perform m call w).1
  unfolding perform
  perform-Step m (set ctx s) w = set_state-Step m ctx s w
  perform-Step m (move ctx to) w = transition-Step m ctx to w
  perform-Step m (move_from ctx from to) w =
      elim (transition_if_current_state_lem m ctx to w from) [
        | inl (_, q) ↦ rw q (transition-Step m ctx to w)
        | inr (_, q) ↦ rw q refuse
      ]
