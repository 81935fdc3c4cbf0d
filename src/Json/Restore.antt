-- ===== src/Json/Restore.antt =====
-- json.go: which states NewFromJSON restores, and the round trip of a machine.
use go_fsm.Base.{
  ◌≡◌, ◌≢◌, ◌↔◌, ◌∙◌, refl, sym, ap, subst, inl, inr, String, string_eq, true, false, some, List,
  [], ◌∷◌, ◌==◌, Result, ok, err, Result-cases, Bool-cases, Option-cases, beq_cases,
}
use go_fsm.Base.Lists.{All, IsUnique}
use go_fsm.Base.Maps.{is_some, keys, has_key, lookup}
use go_fsm.Hooks.Registry.Listing.{HookInfo}
use go_fsm.Transitions.Config.{StateMap, Config, ConfigError, new_config, has_state, as_map}
use go_fsm.Transitions.Config.Accept.{
  IsWellFormed, new_config-ok_iff, entries_of_accepted, config_of_accepted,
}
use go_fsm.Transitions.Config.Lookup.{has_state-has_key, IsEntry_at}
use go_fsm.Machine.{Machine, MachineOption, config_db, new_machine, new_simple}
use go_fsm.Machine.Moves.{get_state}
use go_fsm.Machine.Steps.{Call, perform_all}
use go_fsm.Machine.Reach.{perform_all-rest}
use go_fsm.Machine.Construct.{
  IsUsable, new_machine-ok_iff, new_machine_lem, new_simple_lem, new_simple-perform_all,
}
use go_fsm.Json.{PersistentState, restore, restore_over, snapshot, is_nil}

-- A source of an accepted map is not the empty string.
source_nonempty :
    (config : StateMap) {c : Config}
    → new_config config ≡ ok c
    → (state : String) → has_key state config ≡ true
    → (state == "") ≡ false
source_nonempty config accepted state known = elim (beq_cases state "") [
  | inr n ↦ n
  | inl (q, h) ↦ elim (Option-cases (lookup state config)) [
    | inl n ↦ absurd (cc (known, ap is_some n))
    | inr (tos, e) ↦
        let entry = IsEntry_at config config state tos (entries_of_accepted config accepted) e in
        absurd (entry.0.nonempty q)
  ]
]

nonempty_list : (config : StateMap) → config ≢ [] → is_nil config ≡ false
unfolding is_nil
nonempty_list [] n = absurd (n refl)
nonempty_list (entry ∷ rest) n = refl

ok-inj : (c d : Config) → ◌≡◌ {A = Result ConfigError Config} (ok c) (ok d) → c ≡ d
ok-inj c d h = cc

module _ {E W : Type 0} where
  -- What is restored over a map that New accepts.
  restore_known :
      (p : PersistentState) (opts : List (MachineOption E W)) {c : Config} (m : Machine E W)
      → new_config p.transitions ≡ ok c
      → has_key p.state p.transitions ≡ true
      → new_machine p.state (some (config_db c)) opts ≡ ok m
      → restore p opts ≡ ok m
  unfolding restore restore_over
  restore_known p opts {c} m accepted known made =
      let well_formed = (new_config-ok_iff p.transitions).0 (c, accepted) in
      let has = has_state-has_key p.transitions accepted p.state ∙ known in
      rw
        (
          source_nonempty p.transitions accepted p.state known,
          nonempty_list p.transitions well_formed.nonempty,
        )
        (restored c m has made accepted)
    where
      restored :
          (c : Config) (m : Machine E W)
          → has_state c p.state ≡ true
          → new_machine p.state (some (config_db c)) opts ≡ ok m
          → new_config p.transitions ≡ ok c
          → restore_over p.state opts (new_config p.transitions) ≡ ok m
      restored c m has made accepted = rw accepted (rw has (rw made refl))

  refused :
      (state : String) (opts : List (MachineOption E W)) (e : ConfigError) (m : Machine E W)
      → restore_over state opts (err e) ≢ ok m
  unfolding restore_over
  refused state opts e m h = absurd (cc)

  over_ok :
      (state : String) (opts : List (MachineOption E W)) (c : Config) (m : Machine E W)
      → restore_over state opts (ok c) ≡ ok m
      → (has_state c state ≡ true) × All IsUsable opts
  unfolding restore_over
  over_ok state opts c m h = elim (Bool-cases (has_state c state)) [
    | inr n ↦ absurd (cc (rw n at h))
    | inl k ↦ elim (Result-cases (new_machine state (some (config_db c)) opts)) [
      | inl (m', e) ↦ (k, ((new_machine-ok_iff state (config_db c) opts).0 (m', e)).1)
      | inr (e, n) ↦ absurd (cc (rw n at (rw k at h)))
    ]
  ]

  restored_from :
      (p : PersistentState) (opts : List (MachineOption E W)) (m : Machine E W)
      → restore p opts ≡ ok m
      → IsWellFormed p.transitions × (has_key p.state p.transitions ≡ true) × All IsUsable opts
  unfolding restore
  restored_from p opts m h = elim (Bool-cases (p.state == "")) [
    | inl n ↦ absurd (cc (rw n at h))
    | inr k ↦ elim (Bool-cases (is_nil p.transitions)) [
      | inl n ↦ absurd (cc (rw n at (rw k at h)))
      | inr j ↦ elim (Result-cases (new_config p.transitions)) [
        | inr (e, n) ↦ absurd (refused p.state opts e m (rw n at (rw j at (rw k at h))))
        | inl (c, a) ↦
            let (has, usable) = over_ok p.state opts c m (rw a at (rw j at (rw k at h))) in
            (
              (new_config-ok_iff p.transitions).0 (c, a),
              sym (has_state-has_key p.transitions a p.state) ∙ has,
              usable,
            )
      ]
    ]
  ]

  -- NewFromJSON, once the bytes are read, succeeds exactly on a state whose transitions are well
  -- formed and have it as a source, with options that have their arguments.
  pub restore-ok_iff :
      (p : PersistentState) (opts : List (MachineOption E W))
      → ((m : Machine E W) × (restore p opts ≡ ok m))
        ↔ (IsWellFormed p.transitions × (has_key p.state p.transitions ≡ true) × All IsUsable opts)
  restore-ok_iff p opts = (
    λ found. restored_from p opts found.0 found.1,
    λ u.
        let (c, accepted) = (new_config-ok_iff p.transitions).1 u.0 in
        let has = has_state-has_key p.transitions accepted p.state ∙ u.1 in
        let (m, made) = (new_machine-ok_iff p.state (config_db c) opts).1 (has, u.2) in
        (m, restore_known p opts m accepted u.1 made),
  )

  -- The state that MarshalJSON saves of a machine of NewSimple after any calls, over a map without
  -- repeated keys, is restored by NewFromJSON, with options that have their arguments, to a machine
  -- in the same state and over the same table.
  pub restore-snapshot :
      (initial : String) (config : StateMap) (opts opts' : List (MachineOption E W))
      (m : Machine E W) {c : Config}
      → new_simple initial config opts ≡ ok m
      → new_config config ≡ ok c
      → IsUnique (keys config)
      → All IsUsable opts'
      → (calls : List Call) (w : W) (hooks : List HookInfo) (p : PersistentState)
      → snapshot (some (as_map c)) hooks (perform_all m calls w).0 ≡ ok p
      → (m' : Machine E W) × (restore p opts' ≡ ok m')
        × (get_state m' ≡ get_state (perform_all m calls w).0)
        × (m'.transitions ≡ (perform_all m calls w).0.transitions)
  unfolding snapshot as_map
  restore-snapshot initial config opts opts' m {c} built accepted unique usable calls w hooks p
        saved =
      let last = (perform_all m calls w).0 in
      let saved_state : PersistentState = record {
        state = get_state last;
        transitions = as_map c;
        hooks = hooks;
      } in
      let same : saved_state ≡ p = cc in
      let stored : as_map c ≡ config = config_of_accepted config accepted in
      let known = new_simple-perform_all initial config opts m built unique calls w in
      let has = has_state-has_key config accepted (get_state last) ∙ known in
      let (m', made) = (new_machine-ok_iff (get_state last) (config_db c) opts').1 (has, usable) in
      let (state, table, _, _) = new_machine_lem (get_state last) (config_db c) opts' m' made in
      let (c0, accepted0, made0) = new_simple_lem initial config opts m built in
      let (_, table0, _, _) = new_machine_lem initial (config_db c0) opts m made0 in
      let equal : c0 ≡ c = ok-inj c0 c (sym accepted0 ∙ accepted) in
      (
        m',
        subst (λ p. restore p opts' ≡ ok m') same
            (restore_known saved_state opts' m' (ap new_config stored ∙ accepted)
              (ap (has_key (get_state last)) stored ∙ known) made),
        state,
        table
            ∙ sym (
                ap (λ (n : Machine E W). n.transitions) (perform_all-rest m calls w)
                ∙ table0
                ∙ ap config_db equal),
      )
