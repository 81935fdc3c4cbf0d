-- ===== src/Transitions/Config/Encoding.antt =====
-- transitions/config.go: MustNew, MarshalJSON and UnmarshalJSON. `encoding/json` maps a map to bytes
-- and back; the definitions are about the map.
use go_fsm.Base.{◌≡◌, ◌∙◌, refl, ap, Option, none, some, List, [], ◌∷◌, Result, ok, err}
use go_fsm.Transitions.Config.{
  StateMap, Config, ConfigIssue, ConfigError, empty_config, invalid_config, build_index, finish,
  new_config,
}
use go_fsm.Transitions.Config.Accept.{config_of_accepted}

-- What MustNew panics with.
pub data CreateError : Type 0 where
  create_failed : ConfigError → CreateError

-- MustNew; a panic is an error.
unfoldable pub must_new : StateMap → Result CreateError Config
must_new config = elim (new_config config) [ ok t ↦ ok t | err e ↦ err (create_failed e) ]

-- MarshalJSON, before json.Marshal.
abbrev pub marshal_json : Config → StateMap
marshal_json t = t.config

pub data UnmarshalError : Type 0 where
  malformed : UnmarshalError
  refused : ConfigError → UnmarshalError

-- The end of UnmarshalJSON: the receiver changes where buildIndex has no error.
unfoldable pub replace :
    Config → StateMap → StateMap × List ConfigIssue → Config × Option UnmarshalError
replace t config (index, []) = (record { config = config; index = index }, none)
replace t config (index, e ∷ es) = (t, some (refused (invalid_config (e ∷ es))))

-- UnmarshalJSON, after json.Unmarshal, which is `none` where it fails.
unfoldable pub unmarshal_json : Config → Option StateMap → Config × Option UnmarshalError
unfolding replace build_index
unmarshal_json t none = (t, some malformed)
unmarshal_json t (some []) = (t, some (refused empty_config))
unmarshal_json t (some (entry ∷ rest)) = replace t (entry ∷ rest) (build_index (entry ∷ rest))

-- What New makes of a map, on a receiver.
abbrev pub received : Config → Result ConfigError Config → Config × Option UnmarshalError
received t (ok c) = (c, none)
received t (err e) = (t, some (refused e))

replace-finish :
    (t : Config) (config : StateMap) (built : StateMap × List ConfigIssue)
    → replace t config built ≡ received t (finish config built)
unfolding replace finish
replace-finish t config (index, []) = refl
replace-finish t config (index, e ∷ es) = refl

unmarshal_json-received :
    (t : Config) (config : StateMap)
    → unmarshal_json t (some config) ≡ received t (new_config config)
unfolding unmarshal_json new_config
unmarshal_json-received t [] = refl
unmarshal_json-received t (entry ∷ rest) =
    replace-finish t (entry ∷ rest) (build_index (entry ∷ rest))

-- UnmarshalJSON of a map, once the bytes are read, gives its receiver the configuration that New
-- makes of the map, or returns the error of New and keeps the receiver; of what MarshalJSON writes
-- of a configuration of New, it gives that configuration.
pub unmarshal_json-new_config :
    (t : Config) (config : StateMap)
    → (unmarshal_json t (some config) ≡ received t (new_config config))
      × ((c : Config)
          → new_config config ≡ ok c
          → unmarshal_json t (some (marshal_json c)) ≡ (c, none))
unmarshal_json-new_config t config = (
  unmarshal_json-received t config,
  λ c accepted.
      ap (λ config. unmarshal_json t (some config)) (config_of_accepted config accepted)
      ∙ unmarshal_json-received t config
      ∙ ap (received t) accepted,
)
