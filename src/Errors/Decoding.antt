-- ===== src/Errors/Decoding.antt =====
-- json.go: what `errors.Is` tells of the error of NewFromJSON.
use go_fsm.Base.{
  ◌≡◌, ◌∙◌, refl, inl, inr, String, Bool, true, false, not, ◌&&◌, some, List, [], ◌∷◌, ◌==◌,
  string_eq, arith, Bool-cases, Result, ok, err, Result-cases,
}
use go_fsm.Base.Lists.{contains, contains-append}
use go_fsm.Transitions.Config.{
  ConfigIssue, invalid_source, invalid_destination, undefined_destinations, ConfigError,
  empty_config, invalid_config, Config, new_config, has_state,
}
use go_fsm.Machine.{
  Machine, MachineError, MachineOption, config_db, initial_machine, apply_option, apply_options,
  new_machine,
}
use go_fsm.Json.{PersistentState, JsonError, is_nil, restore, restore_over}
use go_fsm.Errors.{
  Sentinel, err_empty_config, err_invalid_config, err_invalid_configuration, err_invalid_state_name,
  err_undefined_destinations, err_empty_state, err_empty_transitions, err_invalid_json_transitions,
  sentinel_eq, wraps_issue, wraps_issues, wraps_config, wraps_machine, wraps_json,
}

-- A sentinel that no other package and no constructor of the machine uses.
abbrev IsOfJson : Sentinel → Type 0
IsOfJson s =
    ((issue : ConfigIssue) → contains (wraps_issue issue) s ≡ false)
    × (contains (err_empty_config ∷ err_invalid_config ∷ err_invalid_configuration ∷ []) s ≡ false)

issue_quiet :
    (s : Sentinel)
    → contains (err_invalid_state_name ∷ err_undefined_destinations ∷ []) s ≡ false
    → (issue : ConfigIssue) → contains (wraps_issue issue) s ≡ false
unfolding contains
issue_quiet s h (invalid_source e) = ground (arith, h)
issue_quiet s h (invalid_destination e) = ground (arith, h)
issue_quiet s h (undefined_destinations l) = ground (arith, h)

issues_quiet :
    (s : Sentinel) (issues : List ConfigIssue)
    → IsOfJson s
    → contains (wraps_issues issues) s ≡ false
unfolding contains
issues_quiet s [] v = refl
issues_quiet s (issue ∷ issues) v =
    contains-append (wraps_issue issue) (wraps_issues issues) s
    ∙ ground (arith, v.0 issue, issues_quiet s issues v)

config_quiet : (s : Sentinel) (e : ConfigError) → IsOfJson s → contains (wraps_config e) s ≡ false
unfolding contains
config_quiet s empty_config v = ground (arith, v.1)
config_quiet s (invalid_config issues) v = ground (arith, v.1, issues_quiet s issues v)

empty_state_of : IsOfJson err_empty_state
unfolding contains
empty_state_of = (issue_quiet err_empty_state refl, refl)

empty_transitions_of : IsOfJson err_empty_transitions
unfolding contains
empty_transitions_of = (issue_quiet err_empty_transitions refl, refl)

json_transitions_of : IsOfJson err_invalid_json_transitions
unfolding contains
json_transitions_of = (issue_quiet err_invalid_json_transitions refl, refl)

abbrev pub is_err {ℓ κ} : {E : Type ℓ} {A : Type κ} → Result E A → Bool
is_err (ok _) = false
is_err (err _) = true

module _ {E W : Type 0} (wraps_executor : E → List Sentinel) where
  abbrev pub result_fails_with : Result (JsonError E) (Machine E W) → Sentinel → Bool
  result_fails_with (ok _) target = false
  result_fails_with (err e) target = contains (wraps_json wraps_executor e) target

  abbrev made_fails_with : Result (MachineError E) (Machine E W) → Sentinel → Bool
  made_fails_with (ok _) target = false
  made_fails_with (err e) target = contains (wraps_machine wraps_executor e) target

  options_quiet :
      (opts : List (MachineOption E W)) (m : Machine E W) (s : Sentinel)
      → made_fails_with (apply_options opts m) s ≡ false
  unfolding apply_options contains
  options_quiet [] m s = refl
  options_quiet (opt ∷ opts) m s = elim (Result-cases (apply_option opt m)) [
    | inl (m', e) ↦ rw (e, made_fails_with) (options_quiet opts m' s)
    | inr (error, e) ↦ rw (e, made_fails_with) refl
  ]

  made_quiet :
      (state : String) (c : Config) (opts : List (MachineOption E W)) (s : Sentinel)
      → has_state c state ≡ true
      → made_fails_with (new_machine state (some (config_db c)) opts) s ≡ false
  unfolding new_machine
  made_quiet state c opts s h = rw h (options_quiet opts (initial_machine state (config_db c)) s)

  over_quiet :
      (state : String) (opts : List (MachineOption E W)) (c : Config) (s : Sentinel)
      → IsOfJson s
      → result_fails_with (restore_over state opts (ok c)) s ≡ false
  unfolding restore_over contains
  over_quiet state opts c s v = elim (Bool-cases (has_state c state)) [
    | inr n ↦ rw n (ground (arith, v.1))
    | inl h ↦ elim (Result-cases (new_machine state (some (config_db c)) opts)) [
      | inl (m, e) ↦ rw h (rw e refl)
      | inr (error, e) ↦ rw h (rw e (rw e at (made_quiet state c opts s h)))
    ]
  ]

  over_told :
      (state : String) (opts : List (MachineOption E W)) (r : Result ConfigError Config)
      → (result_fails_with (restore_over state opts r) err_empty_state ≡ false)
        × (result_fails_with (restore_over state opts r) err_empty_transitions ≡ false)
        × (result_fails_with (restore_over state opts r) err_invalid_json_transitions ≡ is_err r)
  over_told state opts (ok c) = (
    over_quiet state opts c err_empty_state empty_state_of,
    over_quiet state opts c err_empty_transitions empty_transitions_of,
    over_quiet state opts c err_invalid_json_transitions json_transitions_of,
  )
  over_told state opts (err e) =
      unfold restore_over contains in
      (
        config_quiet err_empty_state e empty_state_of,
        config_quiet err_empty_transitions e empty_transitions_of,
        refl,
      )

  -- Of the error of NewFromJSON, once the bytes are read, errors.Is finds ErrEmptyState exactly
  -- where the state is empty, ErrEmptyTransitions exactly where it is not and there are no
  -- transitions, and ErrInvalidJSONTransitions exactly where both are given and New refuses the
  -- transitions.
  pub restore-fails_with :
      (p : PersistentState) (opts : List (MachineOption E W))
      → let stated = not (p.state == "") in
        let listed = not (is_nil p.transitions) in
        (result_fails_with (restore p opts) err_empty_state ≡ not stated)
        × (result_fails_with (restore p opts) err_empty_transitions ≡ (stated && not listed))
        × (result_fails_with (restore p opts) err_invalid_json_transitions
            ≡ (stated && (listed && is_err (new_config p.transitions))))
  unfolding restore
  restore-fails_with p opts = elim (Bool-cases (p.state == "")) [
    | inl n ↦ rw n (unfold contains in (refl, refl, refl))
    | inr k ↦ rw k (elim (Bool-cases (is_nil p.transitions)) [
      | inl n ↦ rw n (unfold contains in (refl, refl, refl))
      | inr j ↦ rw j (over_told p.state opts (new_config p.transitions))
    ])
  ]
