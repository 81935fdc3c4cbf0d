-- ===== src/Transitions/Config/States.antt =====
-- The listings of transitions/config.go: GetAllStates, GetAllowedTransitions and IsTerminal.
use go_fsm.Base.{
  ◌≡◌, ◌↔◌, ◌∙◌, refl, ap, inl, inr, String, Bool, true, false, ◌||◌, Option, none, some, List, [],
  ◌∷◌, string_eq, Option-cases, Bool-cases, arith, ok,
}
use go_fsm.Base.Lists.{All, All-at, contains, contains-set_add, set_add, set_add-IsUnique, IsUnique}
use go_fsm.Base.Maps.{lookup, has_key, is_some, keys, contains-keys}
use go_fsm.Base.Sort.{sort, sort-IsSorted, nil_of_sort, sort-IsUnique, contains-sort, IsSorted}
use go_fsm.Base.Text.{str_leb, str_leb-IsTotalOrder}
use go_fsm.Transitions.Config.{
  StateMap, Config, add_all, add_all_targets, new_config, is_transition_allowed, has_state,
  get_all_states, get_allowed_transitions, is_terminal,
}
use go_fsm.Transitions.Config.Accept.{IsEntry, entries_of_accepted, config_of_accepted}
use go_fsm.Transitions.Config.Lookup.{has_state-has_key}

contains-add_all :
    (set ss : List String) (x : String)
    → contains (add_all set ss) x ≡ (contains set x || contains ss x)
unfolding add_all contains
contains-add_all set [] x = ground arith
contains-add_all set (s ∷ ss) x =
    ground (arith, contains-add_all (set_add set s) ss x, contains-set_add set s x)

add_all-IsUnique : (set ss : List String) → IsUnique set → IsUnique (add_all set ss)
unfolding add_all
add_all-IsUnique set [] u = u
add_all-IsUnique set (s ∷ ss) u = add_all-IsUnique (set_add set s) ss (set_add-IsUnique set s u)

-- Whether a state is a target of some entry.
abbrev pub is_target : StateMap → String → Bool
is_target [] x = false
is_target ((from, tos) ∷ rest) x = contains tos x || is_target rest x

contains-add_all_targets :
    (set : List String) (m : StateMap) (x : String)
    → contains (add_all_targets set m) x ≡ (contains set x || is_target m x)
unfolding add_all_targets
contains-add_all_targets set [] x = ground arith
contains-add_all_targets set ((from, tos) ∷ rest) x =
    ground (arith, contains-add_all_targets (add_all set tos) rest x, contains-add_all set tos x)

add_all_targets-IsUnique :
    (set : List String) (m : StateMap) → IsUnique set → IsUnique (add_all_targets set m)
unfolding add_all_targets
add_all_targets-IsUnique set [] u = u
add_all_targets-IsUnique set ((from, tos) ∷ rest) u =
    add_all_targets-IsUnique (add_all set tos) rest (add_all-IsUnique set tos u)

-- GetAllStates lists each source and each target once, in alphabetical order.
pub get_all_states_lem :
    (c : Config)
    → ((x : String) → contains (get_all_states c) x ≡ (has_key x c.config || is_target c.config x))
      × IsUnique (get_all_states c)
      × IsSorted str_leb (get_all_states c)
unfolding get_all_states contains
get_all_states_lem c = (
  λ x.
      contains-sort str_leb (add_all_targets (add_all [] (keys c.config)) c.config) x
      ∙ ground (
        arith,
        contains-add_all_targets (add_all [] (keys c.config)) c.config x,
        contains-add_all [] (keys c.config) x,
        contains-keys c.config x,
      ),
  sort-IsUnique str_leb _
      (add_all_targets-IsUnique _ c.config (add_all-IsUnique [] (keys c.config) tt)),
  sort-IsSorted str_leb str_leb-IsTotalOrder _,
)

target_has_key :
    (config m : StateMap) (x : String)
    → All (IsEntry config) m
    → is_target m x ≡ true
    → has_key x config ≡ true
target_has_key config [] x v h = absurd (cc)
target_has_key config ((from, tos) ∷ rest) x v h = elim (Bool-cases (contains tos x)) [
  | inl k ↦ (All-at _ tos x v.0.1 k).1
  | inr k ↦ target_has_key config rest x v.1 (ground arith)
]

-- In an accepted configuration GetAllStates lists exactly the states of HasState.
pub get_all_states-has_state :
    (config : StateMap) {c : Config}
    → new_config config ≡ ok c
    → (x : String) → contains (get_all_states c) x ≡ has_state c x
get_all_states-has_state config {c} accepted x =
    (get_all_states_lem c).0 x
    ∙ ap (λ m. has_key x m || is_target m x) (config_of_accepted config accepted)
    ∙ elim (Bool-cases (is_target config x)) [
      | inl h ↦ ground (
        arith,
        target_has_key config config x (entries_of_accepted config accepted) h,
        has_state-has_key config accepted x,
      )
      | inr h ↦ ground (arith, has_state-has_key config accepted x)
    ]

abbrev pub targets_or_nil : Option (List String) → List String
targets_or_nil none = []
targets_or_nil (some l) = l

terminal_sort :
    (tos : List String)
    → (elim (some tos) [ none ↦ false | some [] ↦ true | some (_ ∷ _) ↦ false ] ≡ true)
      ↔ (some (sort str_leb tos) ≡ some [])
terminal_sort [] = ((λ h. unfold sort in refl), λ h. refl)
terminal_sort (to ∷ tos) =
    ((λ h. cc), λ h. cc (nil_of_sort str_leb (to ∷ tos) (ap targets_or_nil h)))

-- GetAllowedTransitions lists, in order, exactly the targets that IsTransitionAllowed admits, and
-- reports a source that is unknown; IsTerminal is true of a known state without targets.
pub get_allowed_transitions_lem :
    (c : Config) (from : String)
    → ((to : String)
        → contains (targets_or_nil (get_allowed_transitions c from)) to
          ≡ is_transition_allowed c from to)
      × (is_some (get_allowed_transitions c from) ≡ has_state c from)
      × IsSorted str_leb (targets_or_nil (get_allowed_transitions c from))
      × ((is_terminal c from ≡ true) ↔ (get_allowed_transitions c from ≡ some []))
unfolding get_allowed_transitions is_transition_allowed is_terminal has_state contains
get_allowed_transitions_lem c from = elim (Option-cases (lookup from c.index)) [
  | inl e ↦
      rw (e, get_allowed_transitions, is_transition_allowed, is_terminal, has_state)
        ((λ to. refl), refl, tt, ((λ h. cc), λ h. cc))
  | inr (tos, e) ↦
      rw (e, get_allowed_transitions, is_transition_allowed, is_terminal, has_state)
        (
          (λ to. contains-sort str_leb tos to),
          refl,
          sort-IsSorted str_leb str_leb-IsTotalOrder tos,
          terminal_sort tos,
        )
]
