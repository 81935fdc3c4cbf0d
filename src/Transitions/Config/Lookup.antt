-- ===== src/Transitions/Config/Lookup.antt =====
-- What the index that New builds (transitions/config.go) answers.
use mathlib.Core.Path.{subst₂}
use go_fsm.Base.{
  ◌≡◌, ◌∙◌, refl, sym, ap, beq_cases, inl, inr, String, true, false, some, List, [], ◌∷◌, string_eq,
  Option-cases, Bool-cases, arith, ok,
}
use go_fsm.Base.Lists.{All, All-at, contains, IsUnique}
use go_fsm.Base.Maps.{lookup, has_key, is_some, get_or, keys}
use go_fsm.Transitions.Names.Valid.{IsStateName}
use go_fsm.Transitions.Config.{
  StateMap, Config, start, new_config, is_transition_allowed, has_state,
}
use go_fsm.Transitions.Config.Sources.{add_sources-has_key, add_sources-targets}
use go_fsm.Transitions.Config.Accept.{IsEntry, valid_iff, entries_of_accepted, index_of_accepted}

pub IsEntry_at :
    (config m : StateMap) (from : String) (tos : List String)
    → All (IsEntry config) m
    → lookup from m ≡ some tos
    → IsEntry config (from, tos)
unfolding lookup
IsEntry_at config [] from tos v h = absurd (cc)
IsEntry_at config ((j, w) ∷ rest) from tos v h = elim (beq_cases j from) [
  | inl (q, k) ↦ subst₂ (λ a b. IsEntry config (a, b)) q (ground arith) v.0
  | inr n ↦ IsEntry_at config rest from tos v.1 (ground arith)
]

-- What holds of a listed target.
target_at :
    (config : StateMap) (from to : String)
    → All (IsEntry config) config
    → contains (get_or [] from config) to ≡ true
    → IsStateName from × IsStateName to × (has_key from config ≡ true) × (has_key to config ≡ true)
unfolding get_or contains
target_at config from to v h = elim (Option-cases (lookup from config)) [
  | inl e ↦ absurd (cc (rw (e, get_or) at h))
  | inr (tos, e) ↦
      let entry = IsEntry_at config config from tos v e in
      let (name, known) = All-at _ tos to entry.1 (rw (e, get_or) at h) in
      (entry.0, name, ap is_some e, known)
]

empty_index_fresh : (js : List String) → All (λ j. has_key j start.index ≡ false) js
unfolding lookup
empty_index_fresh [] = tt
empty_index_fresh (j ∷ js) = (refl, empty_index_fresh js)

allowed_get_or :
    (c : Config) (from to : String)
    → is_transition_allowed c from to ≡ contains (get_or [] from c.index) to
unfolding is_transition_allowed get_or contains
allowed_get_or c from to = ground arith

module _ (config : StateMap) {c : Config} (accepted : new_config config ≡ ok c) where
  -- HasState of an accepted configuration answers whether the state is a source of it.
  pub has_state-has_key : (state : String) → has_state c state ≡ has_key state config
  unfolding has_state
  has_state-has_key state =
      ap (has_key state) (index_of_accepted config accepted)
      ∙ add_sources-has_key config start config state
      ∙ elim (Option-cases (lookup state config)) [
        | inl e ↦ unfold lookup in ground arith
        | inr (tos, e) ↦
            let valid =
              (valid_iff state).1
                (IsEntry_at config config state tos (entries_of_accepted config accepted) e).0 in
            unfold lookup in ground arith
      ]

  -- The index of an accepted configuration without repeated keys answers IsTransitionAllowed as the
  -- configuration lists it.
  pub is_transition_allowed-contains :
      IsUnique (keys config)
      → (from to : String) → is_transition_allowed c from to ≡ contains (get_or [] from config) to
  unfolding contains get_or lookup
  is_transition_allowed-contains unique from to =
      allowed_get_or c from to
      ∙ ap (λ i. contains (get_or [] from i) to) (index_of_accepted config accepted)
      ∙ add_sources-targets config start config from to unique (empty_index_fresh (keys config))
      ∙ elim (Bool-cases (contains (get_or [] from config) to)) [
        | inl h ↦
            let (f, t, _, _) = target_at config from to (entries_of_accepted config accepted) h in
            ground (arith, (valid_iff from).1 f, (valid_iff to).1 t)
        | inr h ↦ ground arith
      ]

  -- In an accepted configuration without repeated keys, a transition that is allowed leads from a
  -- known state to a known state.
  pub allowed-has_state :
      IsUnique (keys config)
      → (from to : String) → is_transition_allowed c from to ≡ true
      → (has_state c from ≡ true) × (has_state c to ≡ true)
  allowed-has_state unique from to h =
      let (_, _, known_from, known_to) =
        target_at config from to (entries_of_accepted config accepted)
          (sym (is_transition_allowed-contains unique from to) ∙ h) in
      (has_state-has_key from ∙ known_from, has_state-has_key to ∙ known_to)
