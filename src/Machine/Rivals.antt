-- ===== src/Machine/Rivals.antt =====
-- fsm.go: TransitionIfCurrentState as a compare-and-swap among rivals.
use go_fsm.Base.{
  ℕ, suc, ◌≤◌, ◌≡◌, ◌≢◌, ◌∙◌, refl, sym, subst, ap, inl, inr, String, none, some, List, [], ◌∷◌,
  map, Option-cases, arith,
}
use go_fsm.Base.Lists.{All}
use go_fsm.Context.{Ctx}
use go_fsm.Machine.{Machine, MachineError}
use go_fsm.Machine.Moves.{Outcome, get_state, store_state}
use go_fsm.Machine.Atomic.{
  pre_hooks, changed, transitioned, transition-changed, transition_if_current_state_lem,
  transition-kept,
}
use go_fsm.Machine.Steps.{Call, move_from, perform}

-- How many of the calls succeed.
abbrev pub wins : {E W : Type 0} → Machine E W → List Call → W → ℕ
wins m [] w = 0
wins m (call ∷ calls) w =
    let (m', w', error) = perform m call w in
    let rest = wins m' calls w' in elim error [ none ↦ suc rest | some _ ↦ rest ]

-- A rival's call: from the state that all of them expect.
abbrev pub rival : String → Ctx × String → Call
rival from (ctx, to) = move_from ctx from to

-- How many succeed after a call with that outcome, the call itself counted.
abbrev wins_after : {E W : Type 0} → List Call → Outcome E W → ℕ
wins_after calls (m, w, none) = suc (wins m calls w)
wins_after calls (m, w, some e) = wins m calls w

module _ {E W : Type 0} (from : String) where
  -- In another state, none of them succeeds.
  lost :
      (m : Machine E W) (rivals : List (Ctx × String)) (w : W)
      → get_state m ≢ from
      → wins m (map (rival from) rivals) w ≡ 0
  unfolding perform
  lost m [] w n = refl
  lost m ((ctx, to) ∷ rivals) w n = elim (transition_if_current_state_lem m ctx to w from) [
    | inl (q, _) ↦ absurd (n q)
    | inr (_, q) ↦ ap (wins_after (map (rival from) rivals)) q ∙ lost m rivals w n
  ]

  failed :
      (m : Machine E W) (ctx : Ctx) (to : String) (w : W) (e : MachineError E)
      → (transitioned m ctx to w).2 ≡ some e
      → transitioned m ctx to w ≡ (m, (transitioned m ctx to w).1, some e)
  failed m ctx to w e h =
      λ i. ((transition-kept m ctx to w e h).0 i, (transitioned m ctx to w).1, h i)

  AtMostOne : List Call → Outcome E W → Type 0
  AtMostOne calls out = wins_after calls out ≤ 1

  -- Of any number of TransitionIfCurrentState calls that expect the same state and lead elsewhere,
  -- in any order, at most one succeeds.
  pub wins_at_most_one :
      (m : Machine E W) (rivals : List (Ctx × String)) (w : W)
      → All (λ r. r.1 ≢ from) rivals
      → wins m (map (rival from) rivals) w ≤ 1
  unfolding perform AtMostOne
  wins_at_most_one m [] w a = omega arith
  wins_at_most_one m ((ctx, to) ∷ rivals) w a =
      let calls = map (rival from) rivals in
      elim (transition_if_current_state_lem m ctx to w from) [
        | inr (n, q) ↦ subst (AtMostOne calls) (sym q) (omega (arith, lost m rivals w n))
        | inl (_, q) ↦
            subst (AtMostOne calls) (sym q) (elim (Option-cases (transitioned m ctx to w).2) [
              | inl h ↦ subst (AtMostOne calls) (sym (transition-changed m ctx to w h)) (
                  omega (
                    arith,
                    lost (store_state m to) rivals (changed m ctx to w (pre_hooks m ctx to w).1).1
                        a.0,
                  ))
              | inr (e, h) ↦
                  subst (AtMostOne calls) (sym (failed m ctx to w e h))
                    (wins_at_most_one m rivals (transitioned m ctx to w).1 a.1)
            ])
      ]
