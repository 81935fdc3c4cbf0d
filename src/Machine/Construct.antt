-- ===== src/Machine/Construct.antt =====
-- fsm.go: New and NewSimple, and the machines that they build.
use go_fsm.Base.{
  ◌≡◌, ◌↔◌, ◌∙◌, refl, sym, ap, subst, inl, inr, String, string_eq, true, Option, none, some, List,
  [], ◌∷◌, Bool-cases, ok, Result-cases,
}
use go_fsm.Base.Lists.{contains, All, IsUnique}
use go_fsm.Base.Maps.{get_or, keys, has_key}
use go_fsm.Transitions.Config
use go_fsm.Transitions.Config.{StateMap, Config, new_config}
use go_fsm.Transitions.Config.Accept.{IsWellFormed, new_config-ok_iff}
use go_fsm.Transitions.Config.Lookup.{is_transition_allowed-contains, has_state-has_key}
use go_fsm.Machine.{
  TransitionDb, config_db, Executor, Machine, MachineOption, with_callback_registry, with_logger,
  given_logger, of_handler, with_log_handler, with_broadcast_timeout, apply_option, apply_options,
  initial_machine, new_machine, new_simple,
}
use go_fsm.Machine.Moves.{get_state}
use go_fsm.Machine.Steps.{Call, is_guarded, perform_all}
use go_fsm.Machine.Reach.{
  IsClosed, config_db-IsClosed, Reaches, perform_all-has_state, perform_all-Reaches,
}

-- The lists of a map lead from a state to a state.
pub data Leads (config : StateMap) : String → String → Type 0 where
  here : {s : String} → Leads config s s
  there :
      {s t u : String}
      → Leads config s t
      → contains (get_or [] t config) u ≡ true
      → Leads config s u

Reaches-Leads :
    (config : StateMap) {c : Config}
    → new_config config ≡ ok c
    → IsUnique (keys config)
    → {s t : String} → Reaches (config_db c) s t
    → Leads config s t
Reaches-Leads config accepted unique Reaches.here = Leads.here
Reaches-Leads config accepted unique (Reaches.there p h) =
    Leads.there (Reaches-Leads config accepted unique p)
      (sym (is_transition_allowed-contains config accepted unique _ _) ∙ h)

module _ {E W : Type 0} where
  -- An option with the argument that it needs.
  abbrev pub IsUsable : MachineOption E W → Type 0
  IsUsable (with_callback_registry executor) = Unit
  IsUsable (with_logger none) = ⊥
  IsUsable (with_logger (some l)) = Unit
  IsUsable (with_log_handler none) = ⊥
  IsUsable (with_log_handler (some h)) = Unit
  IsUsable (with_broadcast_timeout d) = Unit

  -- The executor that the last of the options sets.
  abbrev pub executor_of : List (MachineOption E W) → Option (Executor E W) → Option (Executor E W)
  executor_of [] executor = executor
  executor_of (with_callback_registry given ∷ opts) executor = executor_of opts given
  executor_of (with_logger l ∷ opts) executor = executor_of opts executor
  executor_of (with_log_handler h ∷ opts) executor = executor_of opts executor
  executor_of (with_broadcast_timeout d ∷ opts) executor = executor_of opts executor

  -- What the options leave of a machine.
  abbrev pub Configures : Machine E W → List (MachineOption E W) → Machine E W → Type 0
  Configures m opts m' =
      (m'.state ≡ m.state)
      × (m'.transitions ≡ m.transitions)
      × (m'.callbacks ≡ executor_of opts m.callbacks)

  apply_options-Configures :
      (opts : List (MachineOption E W)) (m m' : Machine E W)
      → apply_options opts m ≡ ok m'
      → All IsUsable opts × Configures m opts m'
  unfolding apply_options apply_option
  apply_options-Configures [] m m' h =
      let q : m ≡ m' = cc in
      (
        tt,
        (
          ap (λ (n : Machine E W). n.state) (sym q),
          ap (λ (n : Machine E W). n.transitions) (sym q),
          ap (λ (n : Machine E W). n.callbacks) (sym q),
        ),
      )
  apply_options-Configures (with_callback_registry executor ∷ opts) m m' h =
      let (u, k) = apply_options-Configures opts (record m { callbacks = executor }) m' h in
      ((tt, u), k)
  apply_options-Configures (with_logger none ∷ opts) m m' h = absurd (cc)
  apply_options-Configures (with_logger (some l) ∷ opts) m m' h =
      let (u, k) = apply_options-Configures opts (record m { logger = given_logger l }) m' h in
      ((tt, u), k)
  apply_options-Configures (with_log_handler none ∷ opts) m m' h = absurd (cc)
  apply_options-Configures (with_log_handler (some l) ∷ opts) m m' h =
      let (u, k) = apply_options-Configures opts (record m { logger = of_handler l }) m' h in
      ((tt, u), k)
  apply_options-Configures (with_broadcast_timeout d ∷ opts) m m' h =
      let (u, k) = apply_options-Configures opts (record m { broadcast_timeout = d }) m' h in
      ((tt, u), k)

  apply_options-ok :
      (opts : List (MachineOption E W)) (m : Machine E W)
      → All IsUsable opts
      → (m' : Machine E W) × (apply_options opts m ≡ ok m')
  unfolding apply_options apply_option
  apply_options-ok [] m u = (m, refl)
  apply_options-ok (with_callback_registry executor ∷ opts) m u = apply_options-ok opts _ u.1
  apply_options-ok (with_logger none ∷ opts) m u = absurd u.0
  apply_options-ok (with_logger (some l) ∷ opts) m u = apply_options-ok opts _ u.1
  apply_options-ok (with_log_handler none ∷ opts) m u = absurd u.0
  apply_options-ok (with_log_handler (some h) ∷ opts) m u = apply_options-ok opts _ u.1
  apply_options-ok (with_broadcast_timeout d ∷ opts) m u = apply_options-ok opts _ u.1

  -- New with a table succeeds exactly when the table has the initial state and each option has its
  -- argument.
  pub new_machine-ok_iff :
      (initial : String) (db : TransitionDb) (opts : List (MachineOption E W))
      → ((m : Machine E W) × (new_machine initial (some db) opts ≡ ok m))
        ↔ ((db.has_state initial ≡ true) × All IsUsable opts)
  unfolding new_machine
  new_machine-ok_iff initial db opts = elim (Bool-cases (db.has_state initial)) [
    | inl h ↦
        rw (h, new_machine)
          (
            (λ found. (
              refl,
              (apply_options-Configures opts (initial_machine initial db) found.0 found.1).0,
            )),
            λ u. apply_options-ok opts (initial_machine initial db) u.1,
          )
    | inr h ↦ rw (h, new_machine) ((λ found. absurd (cc (found.1))), λ u. absurd (cc (u.0)))
  ]

  -- The machine that New returns is in the initial state, which its table has, over the given
  -- table, with the executor of the last option that sets one.
  pub new_machine_lem :
      (initial : String) (db : TransitionDb) (opts : List (MachineOption E W)) (m : Machine E W)
      → new_machine initial (some db) opts ≡ ok m
      → (get_state m ≡ initial)
        × (m.transitions ≡ db)
        × (m.callbacks ≡ executor_of opts none)
        × (db.has_state initial ≡ true)
  unfolding new_machine
  new_machine_lem initial db opts m h = elim (Bool-cases (db.has_state initial)) [
    | inl k ↦
        let (_, (state, transitions, callbacks)) =
          apply_options-Configures opts (initial_machine initial db) m (rw (k, new_machine) at h) in
        (ap (λ s. elim s [ none ↦ "" | some t ↦ t ]) state, transitions, callbacks, k)
    | inr k ↦ absurd (cc (rw (k, new_machine) at h))
  ]

  -- NewSimple is New over the table that the map makes.
  pub new_simple_lem :
      (initial : String) (config : StateMap) (opts : List (MachineOption E W)) (m : Machine E W)
      → new_simple initial config opts ≡ ok m
      → (c : Config) × (new_config config ≡ ok c)
        × (new_machine initial (some (config_db c)) opts ≡ ok m)
  unfolding new_simple
  new_simple_lem initial config opts m h = elim (Result-cases (new_config config)) [
    | inl (c, k) ↦ (c, k, rw (k, new_simple) at h)
    | inr (e, k) ↦ absurd (cc (rw (k, new_simple) at h))
  ]

  -- NewSimple succeeds exactly on a well-formed map that has the initial state as a source, with
  -- options that have their arguments.
  pub new_simple-ok_iff :
      (initial : String) (config : StateMap) (opts : List (MachineOption E W))
      → ((m : Machine E W) × (new_simple initial config opts ≡ ok m))
        ↔ (IsWellFormed config × (has_key initial config ≡ true) × All IsUsable opts)
  new_simple-ok_iff initial config opts = (
    λ found.
        let (c, accepted, built) = new_simple_lem initial config opts found.0 found.1 in
        let (known, usable) = (new_machine-ok_iff initial (config_db c) opts).0 (found.0, built) in
        (
          (new_config-ok_iff config).0 (c, accepted),
          sym (has_state-has_key config accepted initial) ∙ known,
          usable,
        ),
    λ u.
        let (c, accepted) = (new_config-ok_iff config).1 u.0 in
        let (m, built) =
          (new_machine-ok_iff initial (config_db c) opts).1
            (has_state-has_key config accepted initial ∙ u.1, u.2) in
        (m, unfold new_simple in rw (accepted, new_simple) built),
  )

  -- A machine of NewSimple, over a map without repeated keys, is in a source of that map after any
  -- calls, in any order, SetState included.
  pub new_simple-perform_all :
      (initial : String) (config : StateMap) (opts : List (MachineOption E W)) (m : Machine E W)
      → new_simple initial config opts ≡ ok m
      → IsUnique (keys config)
      → (calls : List Call) (w : W) → has_key (get_state (perform_all m calls w).0) config ≡ true
  new_simple-perform_all initial config opts m built unique calls w =
      let (c, accepted, made) = new_simple_lem initial config opts m built in
      let (state, table, _, known) = new_machine_lem initial (config_db c) opts m made in
      let closed = subst IsClosed (sym table) (config_db-IsClosed config accepted unique) in
      let last = get_state (perform_all m calls w).0 in
      let first : m.transitions.has_state (get_state m) ≡ true =
        ap (λ (d : TransitionDb). d.has_state (get_state m)) table
        ∙ ap (λ s. Config.has_state c s) state
        ∙ known in
      sym (has_state-has_key config accepted last)
      ∙ ap (λ (d : TransitionDb). d.has_state last) (sym table)
      ∙ perform_all-has_state m calls w closed first

  -- A machine of NewSimple, over a map without repeated keys, is after any calls other than
  -- SetState, in any order, in a state that the lists of the map lead to from the initial state.
  pub new_simple-Leads :
      (initial : String) (config : StateMap) (opts : List (MachineOption E W)) (m : Machine E W)
      → new_simple initial config opts ≡ ok m
      → IsUnique (keys config)
      → (calls : List Call) (w : W) → All (λ call. is_guarded call ≡ true) calls
      → Leads config initial (get_state (perform_all m calls w).0)
  new_simple-Leads initial config opts m built unique calls w guarded =
      let (c, accepted, made) = new_simple_lem initial config opts m built in
      let (state, table, _, _) = new_machine_lem initial (config_db c) opts m made in
      let last = get_state (perform_all m calls w).0 in
      Reaches-Leads config accepted unique (
        subst (λ d. Reaches d initial last) table
          (subst (λ s. Reaches m.transitions s last) state (perform_all-Reaches m calls w guarded)))
