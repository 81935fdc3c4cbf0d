-- ===== src/Hooks/Contract/Simulation.antt =====
-- Each call on a registry (hooks/registry.go) does what the contract's call does.
use mathlib.Core.Path.{ap₂}
use go_fsm.Base.{
  ◌≡◌, ◌∙◌, refl, sym, ap, inl, inr, String, not, Option, List, [], ◌∷◌, ◌++◌, map, ◌==◌, string_eq,
  Bool-cases, arith, ℕ,
}
use go_fsm.Base.Lists.{keep}
use go_fsm.Base.Maps.{lookup, erase, has_key, is_some}
use go_fsm.Hooks.Entry.{HookType, pre, post, HookEntry, matches}
use go_fsm.Hooks.Registry.{StateTable, HookConfig, Registry, register_hook}
use go_fsm.Hooks.Registry.Removal.{clear}
use go_fsm.Hooks.Registry.Represents.{Log, entries, Represents}
use go_fsm.Hooks.Registry.Registered.{
  registered_entry, register_hook-Represents, allocate-Represents, register_hook-transitions,
}
use go_fsm.Hooks.Registry.Remove.{remove_hook-Represents, remove_hook-transitions, clear-Represents}
use go_fsm.Hooks.Fifo.{fires}
use go_fsm.Hooks.Contract.{
  Item, RegistryCall, register, remove, clear_all, step, accepts, accepts_if, has_item, applies,
  contract_step,
}
use go_fsm.Hooks.Contract.Accepts.{validate_entry-is_ok, register_hook-is_ok}

-- The function that an entry runs.
abbrev pub callback_at : HookType → HookEntry → Option ℕ
callback_at pre e = e.guard
callback_at post e = e.action

abbrev pub callback_of : HookEntry → Option ℕ
callback_of e = callback_at e.hook_type e

abbrev pub item_of : String → HookEntry → Item
item_of name e = record {
  hook_type = e.hook_type;
  config = record { name = name; from = e.from_states; to = e.to_states; func = callback_of e };
}

abbrev pub items : Log → List Item
items [] = []
items ((name, e) ∷ log) = item_of name e ∷ items log

-- The state of the program and that of the contract, related through a list of entries.
pub record Simulates (table : Option StateTable) (r : Registry) (its : List Item) : Type 0 where
  pub log : Log
  pub represents : Represents r log
  pub listed : items log ≡ its
  pub table_kept : r.transitions ≡ table

items-append : (xs ys : Log) → items (xs ++ ys) ≡ items xs ++ items ys
items-append [] ys = refl
items-append ((name, e) ∷ xs) ys = ap (λ l. item_of name e ∷ l) (items-append xs ys)

has_item-items : (name : String) (log : Log) → has_item name (items log) ≡ has_key name log
unfolding lookup
has_item-items name [] = refl
has_item-items name ((n, e) ∷ log) = ground (arith, has_item-items name log)

items-erase :
    (name : String) (log : Log)
    → items (erase name log) ≡ keep (λ item. not (item.config.name == name)) (items log)
unfolding erase
items-erase name [] = refl
items-erase name ((n, e) ∷ log) = elim (Bool-cases (n == name)) [
  | inl q ↦ rw q (items-erase name log)
  | inr q ↦ rw q (ap (λ l. item_of n e ∷ l) (items-erase name log))
]

item_registered :
    (t : HookType) (r : Registry) (config : HookConfig)
    → item_of config.name (registered_entry t r config) ≡ record { hook_type = t; config = config }
item_registered pre r config = refl
item_registered post r config = refl

-- The functions of the entries that fire are those of the items that apply.
pub callbacks-items :
    (t : HookType) (from to : String) (log : Log)
    → map callback_of (keep (fires t from to) (entries log))
      ≡ map (λ (item : Item). item.config.func) (keep (applies t from to) (items log))
unfolding matches
callbacks-items t from to [] = refl
callbacks-items t from to ((name, e) ∷ log) = elim (Bool-cases (fires t from to e)) [
  | inl q ↦ rw q (ap (λ l. callback_of e ∷ l) (callbacks-items t from to log))
  | inr q ↦ rw q (callbacks-items t from to log)
]

module _ {table : Option StateTable} {r : Registry} {its : List Item}
    (s : Simulates table r its) where
  -- A registration's error is decided by the contract.
  pub register_hook-accepts :
      (t : HookType) (config : HookConfig)
      → not (is_some (register_hook t r config).1) ≡ accepts table its config
  register_hook-accepts t config =
      sym (register_hook-is_ok t r config)
      ∙ validate_entry-is_ok t r config
      ∙ ap₂ (λ db taken. accepts_if db taken config) s.table_kept
          (ap is_some (s.represents.by_name config.name)
            ∙ sym (has_item-items config.name s.log)
            ∙ ap (has_item config.name) s.listed)

  pub step-Simulates :
      (call : RegistryCall) → Simulates table (step r call).0 (contract_step table its call)
  unfolding step contract_step
  step-Simulates (register t config) =
      elim (register_hook-Represents t r config s.log s.represents) [
        | inl (n, rep) ↦
            rw (sym (register_hook-accepts t config) ∙ ap (λ e. not (is_some e)) n) (record {
              log = s.log ++ (config.name, registered_entry t r config) ∷ [];
              represents = rep;
              listed =
                  items-append s.log ((config.name, registered_entry t r config) ∷ [])
                  ∙ ap₂ (λ l i. l ++ i ∷ []) s.listed (item_registered t r config);
              table_kept = register_hook-transitions t r config ∙ s.table_kept;
            })
        | inr (error, e) ↦
            rw (sym (register_hook-accepts t config) ∙ ap (λ p. not (is_some p.1)) e) (
              rw e (record {
                log = s.log;
                represents = allocate-Represents s.represents;
                listed = s.listed;
                table_kept = s.table_kept;
              }))
      ]
  step-Simulates (remove name) = record {
    log = erase name s.log;
    represents = (remove_hook-Represents r name s.log s.represents).0;
    listed = items-erase name s.log ∙ ap (keep (λ item. not (item.config.name == name))) s.listed;
    table_kept = remove_hook-transitions r name ∙ s.table_kept;
  }
  step-Simulates clear_all = record {
    log = [];
    represents = clear-Represents r;
    listed = refl;
    table_kept = unfold clear in s.table_kept;
  }
