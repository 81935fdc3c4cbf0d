-- ===== src/Machine/Reach.antt =====
-- fsm.go: the states that a machine can reach, by any calls in any order.
use go_fsm.Base.{string_eq, ◌≡◌, ◌∙◌, refl, sym, ap, String, Bool, true, false, List, [], ◌∷◌, ok}
use go_fsm.Base.Lists.{All, IsUnique}
use go_fsm.Base.Maps.{keys}
use go_fsm.Transitions.Config.{StateMap, Config, new_config}
use go_fsm.Transitions.Config.Lookup.{allowed-has_state}
use go_fsm.Machine.{TransitionDb, config_db, Machine}
use go_fsm.Machine.Moves.{get_state, store_state}
use go_fsm.Machine.Steps.{
  Call, is_guarded, perform, perform_all, Step, refuse, reject, transit, override, perform-Step,
}

-- What the caller of New caller promises of a transitionDB: a transition leads to a state that the table has.
pub record IsClosed (db : TransitionDb) : Type 0 where
  pub target_known :
      (from to : String) → db.is_transition_allowed from to ≡ true → db.has_state to ≡ true

-- The package's own table is one.
pub config_db-IsClosed :
    (config : StateMap) {c : Config}
    → new_config config ≡ ok c
    → IsUnique (keys config)
    → IsClosed (config_db c)
config_db-IsClosed config accepted unique = record {
  target_known = λ from to h. (allowed-has_state config accepted unique from to h).1;
}

-- A path of the table.
pub data Reaches (db : TransitionDb) : String → String → Type 0 where
  here : {s : String} → Reaches db s s
  there : {s t u : String} → Reaches db s t → db.is_transition_allowed t u ≡ true → Reaches db s u

-- `P` is an invariant of a kind of steps: it holds wherever one leads from where it holds.
abbrev pub IsKept : {E W : Type 0} → Bool → (Machine E W → W → Type 0) → Type 0
IsKept {E} {W} g P =
    (m : Machine E W) (w : W) (m' : Machine E W) (w' : W) → Step m w g m' w' → P m w → P m' w'

pub allowed_at :
    {d d' : TransitionDb}
    → d' ≡ d
    → (s t : String) → d'.is_transition_allowed s t ≡ true
    → d.is_transition_allowed s t ≡ true
allowed_at q s t h = ap (λ (d : TransitionDb). d.is_transition_allowed s t) (sym q) ∙ h

module _ {E W : Type 0} where
  -- An invariant of the steps holds after any calls.
  pub perform_all-keeps :
      (P : Machine E W → W → Type 0)
      → IsKept true P
      → IsKept false P
      → (m : Machine E W) (calls : List Call) (w : W) → P m w
      → P (perform_all m calls w).0 (perform_all m calls w).1
  unfolding perform_all
  perform_all-keeps P f g m [] w k = k
  perform_all-keeps P f g m (call ∷ calls) w k =
      perform_all-keeps P f g (perform m call w).0 calls (perform m call w).1
        (one (is_guarded call) m w _ _ (perform-Step m call w) k)
    where
      one : (b : Bool) → IsKept b P
      one true = f
      one false = g

  -- One of the steps that follow the table holds after calls that do.
  pub perform_all-keeps_guarded :
      (P : Machine E W → W → Type 0)
      → IsKept true P
      → (m : Machine E W) (calls : List Call) (w : W) → All (λ call. is_guarded call ≡ true) calls
      → P m w
      → P (perform_all m calls w).0 (perform_all m calls w).1
  unfolding perform_all
  perform_all-keeps_guarded P f m [] w a k = k
  perform_all-keeps_guarded P f m (call ∷ calls) w a k =
      perform_all-keeps_guarded P f (perform m call w).0 calls (perform m call w).1 a.1
        (f m w _ _ (rw (← a.0) (perform-Step m call w)) k)

  -- What no step changes: all but the state.
  abbrev AgreesWith : Machine E W → Machine E W → W → Type 0
  AgreesWith m m' w' = m' ≡ record m { state = m'.state }

  AgreesWith-IsKept : (m : Machine E W) (g : Bool) → IsKept g (AgreesWith m)
  AgreesWith-IsKept m g _ _ _ _ refuse k = k
  AgreesWith-IsKept m g _ _ _ _ (reject ctx to h e n) k = k
  AgreesWith-IsKept m g _ _ _ _ (transit ctx to h n) k =
      ap (λ (m' : Machine E W). store_state m' to) k
  AgreesWith-IsKept m g _ _ _ _ (override ctx to h) k =
      ap (λ (m' : Machine E W). store_state m' to) k

  -- Whatever is called, and in whatever order, the table, the executor, the logger and the timeout
  -- of a machine stay as they were.
  pub perform_all-rest :
      (m : Machine E W) (calls : List Call) (w : W)
      → (perform_all m calls w).0 ≡ record m { state = (perform_all m calls w).0.state }
  perform_all-rest m calls w =
      perform_all-keeps (AgreesWith m) (AgreesWith-IsKept m true) (AgreesWith-IsKept m false) m
        calls w refl

  -- The machine is in a state of the first one's table.
  abbrev IsKnown : Machine E W → Machine E W → W → Type 0
  IsKnown m m' w =
      (m'.transitions ≡ m.transitions) × (m.transitions.has_state (get_state m') ≡ true)

  IsKnown-IsKept : (m : Machine E W) → IsClosed m.transitions → (g : Bool) → IsKept g (IsKnown m)
  IsKnown-IsKept m closed g _ _ _ _ refuse k = k
  IsKnown-IsKept m closed g _ _ _ _ (reject ctx to h e n) k = k
  IsKnown-IsKept m closed g n _ _ _ (transit ctx to h _) k =
      (k.0, closed.target_known (get_state n) to (allowed_at k.0 (get_state n) to h))
  IsKnown-IsKept m closed g n _ _ _ (override ctx to h) k =
      (k.0, ap (λ (d : TransitionDb). d.has_state to) (sym k.0) ∙ h)

  -- Over a table whose transitions lead to known states, a machine in a known state is in one after
  -- any calls, in any order.
  pub perform_all-has_state :
      (m : Machine E W) (calls : List Call) (w : W)
      → IsClosed m.transitions
      → m.transitions.has_state (get_state m) ≡ true
      → m.transitions.has_state (get_state (perform_all m calls w).0) ≡ true
  perform_all-has_state m calls w closed k =
      (perform_all-keeps (IsKnown m) (IsKnown-IsKept m closed true) (IsKnown-IsKept m closed false)
        m calls w (refl, k)).1

  abbrev IsReached : Machine E W → Machine E W → W → Type 0
  IsReached m m' w =
      (m'.transitions ≡ m.transitions) × Reaches m.transitions (get_state m) (get_state m')

  IsReached-IsKept : (m : Machine E W) → IsKept true (IsReached m)
  IsReached-IsKept m _ _ _ _ refuse k = k
  IsReached-IsKept m _ _ _ _ (reject ctx to h e n) k = k
  IsReached-IsKept m n _ _ _ (transit ctx to h _) k =
      (k.0, there k.1 (allowed_at k.0 (get_state n) to h))

  -- Without SetState, calls in any order leave the machine at a state that a path of the table
  -- leads to from its first one.
  pub perform_all-Reaches :
      (m : Machine E W) (calls : List Call) (w : W)
      → All (λ call. is_guarded call ≡ true) calls
      → Reaches m.transitions (get_state m) (get_state (perform_all m calls w).0)
  perform_all-Reaches m calls w guarded =
      (perform_all-keeps_guarded (IsReached m) (IsReached-IsKept m) m calls w guarded
        (refl, here)).1
