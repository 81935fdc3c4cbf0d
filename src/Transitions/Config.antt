-- ===== src/Transitions/Config.antt =====
-- transitions/config.go: the transition table, with its lookup index.
-- A `map[string][]string` is an association list in one order of iteration. Copies (`maps.Clone`,
-- `slices.Clone`) are the values themselves, since values here are never mutated.
mod Targets
mod Sources
pub mod Accept
pub mod Lookup
pub mod States
pub mod Encoding
use go_fsm.Base.{
  ◌≡◌, String, Bool, true, false, Option, none, some, List, [], ◌∷◌, ◌++◌, if◌then◌else◌, string_eq,
  Result, ok, err,
}
use go_fsm.Base.Lists.{contains, set_add}
use go_fsm.Base.Maps.{Map, lookup, insert, has_key, get_or, keys}
use go_fsm.Base.Sort.{sort}
use go_fsm.Base.Text.{str_leb}
use go_fsm.Transitions.Names.{NameError, validate_state_name}

abbrev pub StateMap : Type 0
StateMap = Map String (List String)

-- The errors that buildIndex joins.
pub data ConfigIssue : Type 0 where
  invalid_source : NameError → ConfigIssue
  invalid_destination : NameError → ConfigIssue
  undefined_destinations : List String → ConfigIssue

pub data ConfigError : Type 0 where
  empty_config : ConfigError
  invalid_config : List ConfigIssue → ConfigError

pub record Config : Type 0 where
  pub config : StateMap
  pub index : StateMap

-- The variables of buildIndex: `index`, `undefinedStates`, `errs`.
pub record Build : Type 0 where
  pub index : StateMap
  pub undefined : List String
  pub errs : List ConfigIssue

-- The body of the inner loop.
add_target : StateMap → String → Build → String → Build
add_target config from b to = elim (validate_state_name to) [
  | some e ↦ record b { errs = b.errs ++ invalid_destination e ∷ [] }
  | none ↦ record b {
    index = insert from (set_add (get_or [] from b.index) to) b.index;
    undefined = if has_key to config then b.undefined else set_add b.undefined to;
  }
]

pub add_targets : StateMap → String → Build → List String → Build
add_targets config from b [] = b
add_targets config from b (to ∷ tos) = add_targets config from (add_target config from b to) tos

-- The body of the outer loop.
add_source : StateMap → Build → String → List String → Build
add_source config b from tos = elim (validate_state_name from) [
  | some e ↦ record b { errs = b.errs ++ invalid_source e ∷ [] }
  | none ↦ add_targets config from (record b { index = insert from [] b.index }) tos
]

pub add_sources : StateMap → Build → StateMap → Build
add_sources config b [] = b
add_sources config b ((from, tos) ∷ rest) = add_sources config (add_source config b from tos) rest

abbrev start : Build
start = record { index = []; undefined = []; errs = [] }

-- The last error, of the destinations that are no source.
report_undefined : Build → List ConfigIssue
report_undefined b = elim b.undefined [
  | [] ↦ b.errs
  | _ ∷ _ ↦ b.errs ++ undefined_destinations (sort str_leb b.undefined) ∷ []
]

-- The index, and the joined errors; no error is the empty list.
build_index : StateMap → StateMap × List ConfigIssue
unfolding add_target add_targets add_source add_sources report_undefined
build_index config = let b = add_sources config start config in (b.index, report_undefined b)

finish : StateMap → StateMap × List ConfigIssue → Result ConfigError Config
finish config (index, []) = ok (record { config = config; index = index })
finish config (index, e ∷ es) = err (invalid_config (e ∷ es))

-- New
unfoldable pub new_config : StateMap → Result ConfigError Config
unfolding build_index finish
new_config [] = err empty_config
new_config (entry ∷ rest) = finish (entry ∷ rest) (build_index (entry ∷ rest))

-- IsTransitionAllowed
unfoldable pub is_transition_allowed : Config → String → String → Bool
is_transition_allowed t from to = elim (lookup from t.index) [
  | none ↦ false
  | some allowed_targets ↦ contains allowed_targets to
]

-- GetAllowedTransitions; `none` for `(nil, false)`
unfoldable pub get_allowed_transitions : Config → String → Option (List String)
get_allowed_transitions t from = elim (lookup from t.index) [
  | none ↦ none
  | some targets ↦ some (sort str_leb targets)
]

-- HasState
unfoldable pub has_state : Config → String → Bool
has_state t state = has_key state t.index

-- IsTerminal
unfoldable pub is_terminal : Config → String → Bool
is_terminal t state = elim (lookup state t.index) [
  | none ↦ false
  | some [] ↦ true
  | some (_ ∷ _) ↦ false
]

pub add_all : List String → List String → List String
add_all set [] = set
add_all set (s ∷ ss) = add_all (set_add set s) ss

-- The second loop of GetAllStates.
pub add_all_targets : List String → StateMap → List String
unfolding add_all
add_all_targets set [] = set
add_all_targets set ((from, tos) ∷ rest) = add_all_targets (add_all set tos) rest

-- GetAllStates
unfoldable pub get_all_states : Config → List String
unfolding add_all add_all_targets
get_all_states t = sort str_leb (add_all_targets (add_all [] (keys t.config)) t.config)

-- AsMap
unfoldable pub as_map : Config → StateMap
as_map t = t.config
