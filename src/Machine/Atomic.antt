-- ===== src/Machine/Atomic.antt =====
-- fsm.go: when the methods that change the state succeed, and what a failure leaves.
use go_fsm.Base.{
  ◌≡◌, ◌≢◌, ◌↔◌, ◌⊎◌, refl, ap, inl, inr, String, true, false, Option, none, some, ◌==◌, string_eq,
  Option-cases, Bool-cases, arith, beq_cases, beq_refl, not,
}
use go_fsm.Base.Maps.{is_some}
use go_fsm.Context.{Ctx, CtxError}
use go_fsm.Machine.{
  Machine, MachineError, transition_canceled, transition_not_allowed, current_state_incorrect,
  rejected,
}
use go_fsm.Machine.Moves.{
  Outcome, get_state, store_state, hook_call, run_pre, run_post, set_state_with_context,
  allowed_transition, transition_with_context, transition_if_current_state_with_context,
  transition_bool_with_context,
}

none_iff : {A : Type 0} (o : Option A) → (not (is_some o) ≡ true) ↔ (o ≡ none)
none_iff o = ground arith

module _ {E W : Type 0} (m : Machine E W) (ctx : Ctx) (to : String) (w : W) where
  -- What the pre-transition hooks answer, and the world that they leave.
  abbrev pub pre_hooks : Option E × W
  pre_hooks = run_pre m.callbacks (hook_call ctx (get_state m) to m) w

  -- What a change of the state to `to` comes to when nothing stands against it, from a world: the
  -- new state alone, and the post-transition hooks, which see it.
  abbrev pub changed : W → Outcome E W
  changed w' = (
    store_state m to,
    run_post m.callbacks (hook_call ctx (get_state m) to (store_state m to)) w',
    none,
  )

  -- The conditions of a transition.
  abbrev pub IsClear : Type 0
  IsClear =
      (ctx.error ≡ none)
      × (m.transitions.is_transition_allowed (get_state m) to ≡ true)
      × (pre_hooks.0 ≡ none)

  allowed_transition_lem :
      ((pre_hooks.0 ≡ none) × (allowed_transition m ctx to w ≡ changed pre_hooks.1))
      ⊎ ((e : E) × (pre_hooks.0 ≡ some e)
          × (allowed_transition m ctx to w ≡ (m, pre_hooks.1, some (rejected e))))
  unfolding allowed_transition
  allowed_transition_lem = elim (Option-cases pre_hooks.0) [
    | inl n ↦ inl (n, rw (n, allowed_transition) refl)
    | inr (e, n) ↦ inr (e, n, rw (n, allowed_transition) refl)
  ]

  abbrev pub transitioned : Outcome E W
  transitioned = transition_with_context m ctx to w

  -- The four ways that it ends.
  pub data Ending : Outcome E W → Type 0 where
    canceled : (e : CtxError) → ctx.error ≡ some e → Ending (m, w, some (transition_canceled e))
    not_allowed :
        ctx.error ≡ none
        → m.transitions.is_transition_allowed (get_state m) to ≡ false
        → Ending (m, w, some (transition_not_allowed (get_state m) to))
    turned_away :
        (e : E)
        → ctx.error ≡ none
        → m.transitions.is_transition_allowed (get_state m) to ≡ true
        → pre_hooks.0 ≡ some e
        → Ending (m, pre_hooks.1, some (rejected e))
    done : IsClear → Ending (changed pre_hooks.1)

  pub transition-Ending : Ending transitioned
  unfolding transition_with_context
  transition-Ending = elim (Option-cases ctx.error) [
    | inr (e, h) ↦ simp (h, transition_with_context) (canceled e h)
    | inl h ↦ elim (Bool-cases (m.transitions.is_transition_allowed (get_state m) to)) [
      | inr k ↦ simp (h, transition_with_context) (rw k (not_allowed h k))
      | inl k ↦
          simp (h, transition_with_context)
            (rw k (elim allowed_transition_lem [
              | inl (n, q) ↦ rw q (done (h, k, n))
              | inr (e, n, q) ↦ rw q (turned_away e h k n)
            ]))
    ]
  ]

  clear_of : (out : Outcome E W) → Ending out → out.2 ≡ none → IsClear
  clear_of _ (canceled e h) q = absurd (cc)
  clear_of _ (not_allowed h k) q = absurd (cc)
  clear_of _ (turned_away e h k n) q = absurd (cc)
  clear_of _ (done c) q = c

  changed_of : (out : Outcome E W) → Ending out → IsClear → out ≡ changed pre_hooks.1
  changed_of _ (canceled e h) c = absurd (cc)
  changed_of _ (not_allowed h k) c = absurd (cc)
  changed_of _ (turned_away e h k n) c = absurd (cc)
  changed_of _ (done _) c = refl

  -- A transition returns no error exactly when its context is live, the table allows it from the
  -- current state and the pre-transition hooks return no error.
  pub transition-none_iff : (transitioned.2 ≡ none) ↔ IsClear
  transition-none_iff = (
    clear_of transitioned transition-Ending,
    λ c. ap (λ (out : Outcome E W). out.2) (changed_of transitioned transition-Ending c),
  )

  -- A transition that succeeds changes the state alone, after the pre-transition hooks, and runs
  -- the post-transition hooks, which see the new state.
  pub transition-changed : transitioned.2 ≡ none → transitioned ≡ changed pre_hooks.1
  transition-changed h =
      changed_of transitioned transition-Ending (clear_of transitioned transition-Ending h)

  -- What the world of a failed transition is: as it was, or, where the hooks turned away a
  -- transition that the table allows, as they left it.
  abbrev pub WorldKept : Outcome E W → MachineError E → Type 0
  WorldKept out e =
      (out.1 ≡ w)
      ⊎ ((ctx.error ≡ none)
          × (m.transitions.is_transition_allowed (get_state m) to ≡ true)
          × ((c : E) × (pre_hooks.0 ≡ some c) × (e ≡ rejected c) × (out.1 ≡ pre_hooks.1)))

  kept_of :
      (out : Outcome E W) (e : MachineError E)
      → Ending out
      → out.2 ≡ some e
      → (out.0 ≡ m) × WorldKept out e
  kept_of _ e (canceled _ h) q = (refl, inl refl)
  kept_of _ e (not_allowed h k) q = (refl, inl refl)
  kept_of _ e (turned_away c h k n) q = (refl, inr (h, k, (c, n, cc, refl)))
  kept_of _ e (done c) q = absurd (cc)

  -- A transition that returns an error leaves the machine as it was; the world too, unless the
  -- pre-transition hooks turned away a transition that the table allows, with a live context.
  pub transition-kept :
      (e : MachineError E)
      → transitioned.2 ≡ some e
      → (transitioned.0 ≡ m) × WorldKept transitioned e
  transition-kept e h = kept_of transitioned e transition-Ending h

  abbrev pub stated : Outcome E W
  stated = set_state_with_context m ctx to w

  -- SetState succeeds exactly when its context is live and the table has the state; it then changes
  -- the state and runs the post-transition hooks alone, and otherwise leaves the machine and the
  -- world.
  pub set_state_lem :
      ((stated.2 ≡ none) ↔ ((ctx.error ≡ none) × (m.transitions.has_state to ≡ true)))
      × ((stated.2 ≡ none) → stated ≡ changed w)
      × ((stated.2 ≢ none) → (stated.0 ≡ m) × (stated.1 ≡ w))
  unfolding set_state_with_context
  set_state_lem = elim (Option-cases ctx.error) [
    | inr (e, h) ↦
        simp (h, set_state_with_context)
          ((λ q. absurd (cc), λ q. absurd (cc)), λ q. absurd (cc), λ q. (refl, refl))
    | inl h ↦ elim (Bool-cases (m.transitions.has_state to)) [
      | inr k ↦
          simp (h, set_state_with_context)
            (rw k ((λ q. absurd (cc), λ q. absurd (cc)), λ q. absurd (cc), λ q. (refl, refl)))
      | inl k ↦
          simp (h, set_state_with_context)
            (rw k ((λ q. (refl, refl), λ q. refl), λ q. refl, λ q. absurd (q refl)))
    ]
  ]

  -- The Boolean method answers whether the transition succeeds, and does the same.
  pub transition_bool_lem :
      (transition_bool_with_context m ctx to w).0 ≡ transitioned.0
      × ((transition_bool_with_context m ctx to w).1 ≡ transitioned.1)
      × (((transition_bool_with_context m ctx to w).2 ≡ true) ↔ (transitioned.2 ≡ none))
  unfolding transition_bool_with_context
  transition_bool_lem = (refl, refl, none_iff transitioned.2)

  -- TransitionIfCurrentState succeeds exactly when the current state is the expected one and the
  -- transition succeeds; where the state is another, it leaves the machine and the world, and runs
  -- no hook.
  pub transition_if_current_state_lem :
      (from : String)
      → ((get_state m ≡ from)
          × (transition_if_current_state_with_context m ctx from to w ≡ transitioned))
        ⊎ ((get_state m ≢ from)
            × (transition_if_current_state_with_context m ctx from to w
                ≡ (m, w, some (current_state_incorrect (get_state m) from to))))
  unfolding transition_if_current_state_with_context
  transition_if_current_state_lem from = elim (beq_cases (get_state m) from) [
    | inl (q, k) ↦ inl (q, rw k refl)
    | inr n ↦ inr (λ q. cc (beq_refl from, ap (λ s. s == from) q, n), rw n refl)
  ]
