-- ===== src/Hooks/Contract/Listed.antt =====
-- GetHooks of hooks/registry.go, against the contract.
use go_fsm.Base.{
  ◌≡◌, ◌∙◌, refl, sym, ap, inl, inr, String, Option, none, some, List, [], ◌∷◌, map, ◌==◌,
  string_eq, if◌then◌else◌, beq_cases,
}
use go_fsm.Base.Lists.{IsUnique}
use go_fsm.Base.Maps.{lookup, keys}
use go_fsm.Hooks.Registry.{StateTable, Registry, new_registry}
use go_fsm.Hooks.Registry.Removal.{clear}
use go_fsm.Hooks.Registry.Represents.{Log}
use go_fsm.Hooks.Registry.Listing.{
  HookInfo, info_of, get_hooks, find_info, find_info-infos_of, names-infos_of,
  register_hook-IsUnique, remove_hook-IsUnique,
}
use go_fsm.Hooks.Contract.{Item, RegistryCall, register, remove, clear_all, step, run}
use go_fsm.Hooks.Contract.Simulation.{items}
use go_fsm.Hooks.Contract.History.{after, promised, after-Simulates}

-- What GetHooks tells of a hook of the contract.
abbrev pub told_of : Item → HookInfo
told_of item = record {
  name = item.config.name;
  from_states = item.config.from;
  to_states = item.config.to;
  hook_type = item.hook_type;
}

-- The contract's hook of a name.
abbrev pub find_item : String → List Item → Option Item
find_item name [] = none
find_item name (item ∷ its) = if item.config.name == name then some item else find_item name its

abbrev pub told : Option Item → Option HookInfo
told none = none
told (some item) = some (told_of item)

told-find_item :
    (name : String) (log : Log)
    → told (find_item name (items log))
      ≡ elim (lookup name log) [ none ↦ none | some e ↦ some (info_of name e) ]
unfolding lookup
told-find_item name [] = refl
told-find_item name ((n, e) ∷ log) = elim (beq_cases n name) [
  | inl (q, h) ↦ rw h (ap (λ i. some (info_of i e)) q)
  | inr h ↦ rw h (told-find_item name log)
]

step-IsUnique :
    (r : Registry) (call : RegistryCall)
    → IsUnique (keys r.hooks)
    → IsUnique (keys (step r call).0.hooks)
unfolding step clear
step-IsUnique r (register t config) u = register_hook-IsUnique t r config u
step-IsUnique r (remove name) u = remove_hook-IsUnique r name u
step-IsUnique r clear_all u = tt

run-IsUnique :
    (r : Registry) (calls : List RegistryCall)
    → IsUnique (keys r.hooks)
    → IsUnique (keys (run r calls).hooks)
unfolding run
run-IsUnique r [] u = u
run-IsUnique r (call ∷ calls) u = run-IsUnique (step r call).0 calls (step-IsUnique r call u)

-- After any registrations, removals and clears, GetHooks lists no name twice, and under each name
-- exactly the hook of that name that was accepted and not removed, with its type and its patterns
-- as they were given, or none.
pub get_hooks-promised :
    (table : Option StateTable) (calls : List RegistryCall)
    → IsUnique (map (λ (info : HookInfo). info.name) (get_hooks (after table calls)))
      × ((name : String)
          → find_info name (get_hooks (after table calls))
            ≡ told (find_item name (promised table calls)))
unfolding get_hooks
get_hooks-promised table calls =
    let r = after table calls in
    let s = after-Simulates table calls in
    (
      rw (names-infos_of r.hooks)
          (run-IsUnique (new_registry table) calls (unfold new_registry in tt)),
      λ name.
          find_info-infos_of name r.hooks
          ∙ ap (λ o. elim o [ none ↦ none | some e ↦ some (info_of name e) ])
              (s.represents.by_name name)
          ∙ sym (told-find_item name s.log)
          ∙ ap (λ l. told (find_item name l)) s.listed,
    )
