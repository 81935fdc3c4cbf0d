-- ===== src/Transitions/Examples.antt =====
-- Runs of transitions/config.go on a small table, and the results about it applied to that table.
use go_fsm.Base.{◌≡◌, ◌↔◌, refl, String, string_eq, true, false, none, some, [], ◌∷◌, ok, err}
use go_fsm.Base.Lists.{contains, set_add, IsUnique}
use go_fsm.Base.Maps.{lookup, insert, keys, get_or, is_some}
use go_fsm.Base.Sort.{sort, IsSorted}
use go_fsm.Base.Text.{str_leb}
use go_fsm.Transitions.Names.{validate_state_name, empty, whitespace_only, padded, reserved}
use go_fsm.Transitions.Config.{
  StateMap, Config, empty_config, invalid_config, invalid_destination, undefined_destinations,
  new_config, is_transition_allowed, has_state, get_all_states, get_allowed_transitions,
  is_terminal,
}
use go_fsm.Transitions.Common.{typical}
use go_fsm.Transitions.Config.Accept.{IsWellFormed, new_config-ok_iff}
use go_fsm.Transitions.Config.Lookup.{is_transition_allowed-contains}
use go_fsm.Transitions.Config.Encoding.{
  malformed, refused, marshal_json, unmarshal_json, received, unmarshal_json-new_config,
}
use go_fsm.Transitions.Config.States.{targets_or_nil, get_allowed_transitions_lem}

names_test :
    (validate_state_name "New" ≡ none)
    × (validate_state_name " a" ≡ some (padded " a"))
    × (validate_state_name "*" ≡ some reserved)
    × (validate_state_name "a b" ≡ none)
    × (validate_state_name "\t " ≡ some (whitespace_only "\t "))
    × (validate_state_name "" ≡ some empty)
unfolding validate_state_name
names_test = (refl, refl, refl, refl, refl, refl)

abbrev pub traffic : StateMap
traffic =
    ("green", "yellow" ∷ [])
    ∷ ("yellow", "red" ∷ "off" ∷ [])
    ∷ ("red", "green" ∷ [])
    ∷ ("off", [])
    ∷ []

abbrev pub traffic_config : Config
traffic_config = record { config = traffic; index = traffic }

pub traffic_accepted : new_config traffic ≡ ok traffic_config
unfolding new_config validate_state_name lookup insert set_add contains get_or
traffic_accepted = refl

pub traffic-IsUnique : IsUnique (keys traffic)
unfolding contains
traffic-IsUnique = (refl, (refl, (refl, (refl, tt))))

refused_test :
    (new_config [] ≡ err empty_config)
    × (new_config (("a", "b" ∷ " " ∷ []) ∷ [])
        ≡ err (
            invalid_config
              (invalid_destination (whitespace_only " ") ∷ undefined_destinations ("b" ∷ []) ∷ [])))
unfolding new_config validate_state_name lookup set_add contains sort
refused_test = (refl, refl)

queries_test :
    (get_all_states traffic_config ≡ "green" ∷ "off" ∷ "red" ∷ "yellow" ∷ [])
    × (get_allowed_transitions traffic_config "yellow" ≡ some ("off" ∷ "red" ∷ []))
    × (is_terminal traffic_config "off" ≡ true)
    × (is_transition_allowed traffic_config "green" "red" ≡ false)
unfolding get_all_states get_allowed_transitions is_terminal is_transition_allowed sort set_add
    contains str_leb lookup
queries_test = (refl, refl, refl, refl)

new_config-ok_iff_example : ((c : Config) × (new_config traffic ≡ ok c)) ↔ IsWellFormed traffic
new_config-ok_iff_example = new_config-ok_iff traffic

is_transition_allowed-contains_example :
    is_transition_allowed traffic_config "yellow" "off"
    ≡ contains (get_or [] "yellow" traffic) "off"
is_transition_allowed-contains_example =
    is_transition_allowed-contains traffic traffic_accepted traffic-IsUnique "yellow" "off"

yellow_off : is_transition_allowed traffic_config "yellow" "off" ≡ true
unfolding is_transition_allowed lookup contains
yellow_off = refl

get_allowed_transitions_lem_example :
    ((to : String)
      → contains (targets_or_nil (get_allowed_transitions traffic_config "yellow")) to
        ≡ is_transition_allowed traffic_config "yellow" to)
    × (is_some (get_allowed_transitions traffic_config "yellow")
        ≡ has_state traffic_config "yellow")
    × IsSorted str_leb (targets_or_nil (get_allowed_transitions traffic_config "yellow"))
    × ((is_terminal traffic_config "yellow" ≡ true)
        ↔ (get_allowed_transitions traffic_config "yellow" ≡ some []))
get_allowed_transitions_lem_example = get_allowed_transitions_lem traffic_config "yellow"

-- MustNew does not panic on Typical.
typical_test : new_config typical ≡ ok (record { config = typical; index = typical })
unfolding new_config validate_state_name lookup insert set_add contains get_or
typical_test = refl

unmarshal_json-new_config_example :
    (unmarshal_json traffic_config (some typical) ≡ received traffic_config (new_config typical))
    × ((c : Config)
        → new_config typical ≡ ok c
        → unmarshal_json traffic_config (some (marshal_json c)) ≡ (c, none))
unmarshal_json-new_config_example = unmarshal_json-new_config traffic_config typical

unmarshal_test :
    (unmarshal_json traffic_config none ≡ (traffic_config, some malformed))
    × (unmarshal_json traffic_config (some []) ≡ (traffic_config, some (refused empty_config)))
unfolding unmarshal_json
unmarshal_test = (refl, refl)
