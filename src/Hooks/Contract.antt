-- ===== src/Hooks/Contract.antt =====
-- What a registry promises (hooks/registry.go), with no index and no counter: a list of hooks in
-- the order of registration, that calls extend, filter and empty.
pub mod Accepts
mod Simulation
pub mod History
pub mod Listed
use go_fsm.Base.{
  ℕ, String, Bool, true, false, not, ◌&&◌, ◌||◌, Option, none, some, List, [], ◌∷◌, ◌++◌, ◌==◌,
  string_eq, if◌then◌else◌,
}
use go_fsm.Base.Lists.{contains, keep}
use go_fsm.Base.Maps.{is_some}
use go_fsm.Hooks.Entry.{HookType, is_type, wildcard_state_pattern}
use go_fsm.Hooks.Registry.{StateTable, HookConfig, Registry, HookError, register_hook}
use go_fsm.Hooks.Registry.Removal.{remove_hook, clear}

-- A registered hook, as its client wrote it.
pub record Item : Type 0 where
  pub hook_type : HookType
  pub config : HookConfig

-- The calls that change a registry.
pub data RegistryCall : Type 0 where
  register : HookType → HookConfig → RegistryCall
  remove : String → RegistryCall
  clear_all : RegistryCall

-- A call on the program's registry.
unfoldable pub step : Registry → RegistryCall → Registry × Option HookError
step r (register t config) = register_hook t r config
step r (remove name) = remove_hook r name
step r clear_all = (clear r, none)

unfoldable pub run : Registry → List RegistryCall → Registry
unfolding step
run r [] = r
run r (call ∷ calls) = run (step r call).0 calls

abbrev pub is_any : List String → Bool
is_any patterns = contains patterns wildcard_state_pattern

-- A pattern list admits a state: by the wildcard, or by name.
abbrev pub admits : List String → String → Bool
admits patterns state = is_any patterns || contains patterns state

abbrev pub applies : HookType → String → String → Item → Bool
applies t from to item =
    is_type t item.hook_type && (admits item.config.from from && admits item.config.to to)

abbrev pub is_known : Option StateTable → String → Bool
is_known none state = true
is_known (some table) state = table.has_state state

abbrev pub all_known : Option StateTable → List String → Bool
all_known table [] = true
all_known table (state ∷ states) = is_known table state && all_known table states

abbrev pub has_item : String → List Item → Bool
has_item name [] = false
has_item name (item ∷ items) = item.config.name == name || has_item name items

abbrev pub is_listed : List String → Bool
is_listed [] = false
is_listed (_ ∷ _) = true

-- A registration is accepted: a new name that is not empty, some states on both sides, a callback,
-- and patterns that the table can answer for. `taken` tells whether the name is in use.
abbrev pub accepts_if : Option StateTable → Bool → HookConfig → Bool
accepts_if table taken config =
    not (config.name == "")
    && ((is_listed config.from && is_listed config.to)
        && (is_some config.func
            && (not taken
                && (if is_any config.from || is_any config.to
                    then is_some table
                    else all_known table config.from && all_known table config.to))))

abbrev pub accepts : Option StateTable → List Item → HookConfig → Bool
accepts table items config = accepts_if table (has_item config.name items) config

-- The contract's calls.
unfoldable pub contract_step : Option StateTable → List Item → RegistryCall → List Item
contract_step table items (register t config) =
    if accepts table items config
    then items ++ record { hook_type = t; config = config } ∷ []
    else items
contract_step table items (remove name) = keep (λ item. not (item.config.name == name)) items
contract_step table items clear_all = []

unfoldable pub contract_run : Option StateTable → List Item → List RegistryCall → List Item
unfolding contract_step
contract_run table items [] = items
contract_run table items (call ∷ calls) = contract_run table (contract_step table items call) calls
