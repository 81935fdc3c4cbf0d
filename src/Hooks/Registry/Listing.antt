-- ===== src/Hooks/Registry/Listing.antt =====
-- hooks/registry.go: GetHooks.
use go_fsm.Base.{
  ◌≡◌, refl, ap, inl, inr, String, Option, none, some, List, [], ◌∷◌, map, ◌==◌, string_eq,
  if◌then◌else◌, Option-cases, beq_cases,
}
use go_fsm.Base.Lists.{IsUnique}
use go_fsm.Base.Maps.{Map, lookup, keys, insert-IsUnique, erase-IsUnique}
use go_fsm.Hooks.Entry.{HookEntry, HookType, pre, post}
use go_fsm.Hooks.Registry.{Registry, HookConfig, register_hook}
use go_fsm.Hooks.Registry.Registered.{register_hook-hooks}
use go_fsm.Hooks.Registry.Removal.{remove_hook, withdraw}

-- HookInfo
pub record HookInfo : Type 0 where
  pub name : String
  pub from_states : List String
  pub to_states : List String
  pub hook_type : HookType

abbrev pub info_of : String → HookEntry → HookInfo
info_of name e = record {
  name = name;
  from_states = e.from_states;
  to_states = e.to_states;
  hook_type = e.hook_type;
}

-- The loop of GetHooks, in the order in which the map is gone through.
unfoldable pub infos_of : Map String HookEntry → List HookInfo
infos_of [] = []
infos_of ((name, e) ∷ hooks) = info_of name e ∷ infos_of hooks

-- GetHooks
unfoldable pub get_hooks : Registry → List HookInfo
unfolding infos_of
get_hooks r = infos_of r.hooks

-- The information about a name.
unfoldable pub find_info : String → List HookInfo → Option HookInfo
find_info name [] = none
find_info name (info ∷ infos) = if info.name == name then some info else find_info name infos

pub find_info-infos_of :
    (name : String) (hooks : Map String HookEntry)
    → find_info name (infos_of hooks)
      ≡ elim (lookup name hooks) [ none ↦ none | some e ↦ some (info_of name e) ]
unfolding find_info infos_of lookup
find_info-infos_of name [] = refl
find_info-infos_of name ((n, e) ∷ hooks) = elim (beq_cases n name) [
  | inl (q, h) ↦ rw h (ap (λ i. some (info_of i e)) q)
  | inr h ↦ rw h (find_info-infos_of name hooks)
]

pub names-infos_of :
    (hooks : Map String HookEntry)
    → map (λ (info : HookInfo). info.name) (infos_of hooks) ≡ keys hooks
unfolding infos_of
names-infos_of [] = refl
names-infos_of ((n, e) ∷ hooks) = ap (λ l. n ∷ l) (names-infos_of hooks)

-- No operation gives a name twice.
pub register_hook-IsUnique :
    (t : HookType) (r : Registry) (config : HookConfig)
    → IsUnique (keys r.hooks)
    → IsUnique (keys (register_hook t r config).0.hooks)
register_hook-IsUnique t r config u = elim (register_hook-hooks t r config) [
  | inl q ↦ rw q u
  | inr (e, q) ↦ rw q (insert-IsUnique config.name e r.hooks u)
]

withdraw-IsUnique :
    (t : HookType) (r : Registry) (name : String) (e : HookEntry)
    → IsUnique (keys r.hooks)
    → IsUnique (keys (withdraw t r name e).hooks)
unfolding withdraw
withdraw-IsUnique pre r name e u = erase-IsUnique name r.hooks u
withdraw-IsUnique post r name e u = erase-IsUnique name r.hooks u

pub remove_hook-IsUnique :
    (r : Registry) (name : String)
    → IsUnique (keys r.hooks)
    → IsUnique (keys (remove_hook r name).0.hooks)
unfolding remove_hook
remove_hook-IsUnique r name u = elim (Option-cases (lookup name r.hooks)) [
  | inl n ↦ rw (n, remove_hook) u
  | inr (e, q) ↦ rw (q, remove_hook) (withdraw-IsUnique e.hook_type r name e u)
]
