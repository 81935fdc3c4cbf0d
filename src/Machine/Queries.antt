-- ===== src/Machine/Queries.antt =====
-- fsm.go: AvailableTransitions and IsTerminal, against what a transition does.
use go_fsm.Base.{
  ◌≡◌, ◌↔◌, ◌∙◌, refl, sym, ap, inl, inr, String, string_eq, Bool, true, ◌&&◌, none, List, [], ◌∷◌,
  Bool-cases, arith, ok,
}
use go_fsm.Base.Lists.{keep, contains, contains-keep, IsUnique}
use go_fsm.Base.Maps.{keys}
use go_fsm.Base.Sort.{sort, IsSorted, sort-IsSorted, contains-sort, nil_of_sort}
use go_fsm.Base.Text.{str_leb, str_leb-IsTotalOrder}
use go_fsm.Context.{Ctx}
use go_fsm.Transitions.Config.{StateMap, Config, new_config}
use go_fsm.Transitions.Config.Lookup.{allowed-has_state}
use go_fsm.Transitions.Config.States.{get_all_states-has_state}
use go_fsm.Transitions.Config
use go_fsm.Machine.{TransitionDb, config_db, Machine}
use go_fsm.Machine.Moves.{
  get_state, is_transition_allowed, available_transitions, none_allowed, is_terminal, run_pre,
  hook_call,
}
use go_fsm.Machine.Atomic.{transitioned, transition-none_iff}

none_allowed_iff :
    (allowed : String → Bool) (ss : List String)
    → (none_allowed allowed ss ≡ true) ↔ (keep allowed ss ≡ [])
unfolding none_allowed
none_allowed_iff allowed [] = ((λ h. refl), λ h. refl)
none_allowed_iff allowed (s ∷ ss) = elim (Bool-cases (allowed s)) [
  | inl h ↦ rw (h, none_allowed) ((λ q. absurd (cc)), λ q. absurd (cc))
  | inr h ↦ rw (h, none_allowed) (none_allowed_iff allowed ss)
]

sort_nil_iff : (ss : List String) → (ss ≡ []) ↔ (sort str_leb ss ≡ [])
sort_nil_iff ss =
    ((λ q. ap (sort str_leb) q ∙ (unfold sort in refl)), λ q. nil_of_sort str_leb ss q)

module _ {E W : Type 0} (m : Machine E W) where
  -- AvailableTransitions lists, in alphabetical order, exactly the listed states that
  -- IsTransitionAllowed admits, and IsTerminal is true exactly when it lists none.
  pub available_transitions_lem :
      ((s : String)
        → contains (available_transitions m) s
          ≡ (is_transition_allowed m s && contains m.transitions.get_all_states s))
      × IsSorted str_leb (available_transitions m)
      × ((is_terminal m ≡ true) ↔ (available_transitions m ≡ []))
  unfolding available_transitions is_transition_allowed is_terminal
  available_transitions_lem =
      let allowed = m.transitions.is_transition_allowed (get_state m) in
      let all = m.transitions.get_all_states in
      let (to_nil, from_nil) = none_allowed_iff allowed all in
      let (to_sorted, from_sorted) = sort_nil_iff (keep allowed all) in
      (
        λ s. contains-sort str_leb (keep allowed all) s ∙ contains-keep allowed all s,
        sort-IsSorted str_leb str_leb-IsTotalOrder (keep allowed all),
        ((λ h. to_sorted (to_nil h)), λ h. from_nil (from_sorted h)),
      )

  -- Over a table that New accepted, AvailableTransitions lists exactly the states that
  -- IsTransitionAllowed admits.
  pub available_transitions-is_transition_allowed :
      (config : StateMap) {c : Config}
      → new_config config ≡ ok c
      → IsUnique (keys config)
      → m.transitions ≡ config_db c
      → (s : String) → contains (available_transitions m) s ≡ is_transition_allowed m s
  unfolding is_transition_allowed
  available_transitions-is_transition_allowed config {c} accepted unique q s =
      available_transitions_lem.0 s ∙ elim (Bool-cases (is_transition_allowed m s)) [
        | inr h ↦ ground (arith, h)
        | inl h ↦
            let allowed : Config.is_transition_allowed c (get_state m) s ≡ true =
              ap (λ (d : TransitionDb). d.is_transition_allowed (get_state m) s) (sym q) ∙ h in
            let listed : contains m.transitions.get_all_states s ≡ true =
              ap (λ (d : TransitionDb). contains d.get_all_states s) q
              ∙ get_all_states-has_state config accepted s
              ∙ (allowed-has_state config accepted unique (get_state m) s allowed).1 in
            ground (arith, h, listed)
      ]

  -- Without hooks, with a live context and over an accepted configuration without repeated keys,
  -- the states that AvailableTransitions lists are exactly those that a transition succeeds to.
  pub available_transitions-transitioned :
      (config : StateMap) {c : Config}
      → new_config config ≡ ok c
      → IsUnique (keys config)
      → m.transitions ≡ config_db c
      → m.callbacks ≡ none
      → (ctx : Ctx) → ctx.error ≡ none
      → (s : String) (w : W)
      → (contains (available_transitions m) s ≡ true) ↔ ((transitioned m ctx s w).2 ≡ none)
  unfolding is_transition_allowed
  available_transitions-transitioned config accepted unique q no_hooks ctx live s w =
      let listed = available_transitions-is_transition_allowed config accepted unique q s in
      let (clear, success) = transition-none_iff m ctx s w in
      (
        λ h. success (
          live,
          sym listed ∙ h,
          ap (λ o. (run_pre o (hook_call ctx (get_state m) s m) w).0) no_hooks,
        ),
        λ h. listed ∙ (clear h).1,
      )
