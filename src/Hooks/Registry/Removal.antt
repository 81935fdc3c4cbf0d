-- ===== src/Hooks/Registry/Removal.antt =====
-- hooks/registry.go: RemoveHook and Clear.
use go_fsm.Base.{
  String, Bool, false, not, ◌||◌, Option, none, some, List, [], ◌∷◌, if◌then◌else◌, ◌==◌, nat_eq,
  string_eq,
}
use go_fsm.Base.Lists.{keep}
use go_fsm.Base.Maps.{lookup, erase, map_values}
use go_fsm.Hooks.Entry.{HookEntry, HookType, pre, post, key_eq}
use go_fsm.Hooks.Registry.{HookError, hook_not_found, Registry}

-- `slices.Contains(slice, e)` on pointers, which are compared by address.
abbrev pub holds : HookEntry → List HookEntry → Bool
holds entry [] = false
holds entry (e ∷ es) = e.ref == entry.ref || holds entry es

-- removeFrom
unfoldable pub remove_from : HookEntry → List HookEntry → List HookEntry
remove_from entry slice =
    if not (holds entry slice) then slice else keep (λ e. not (e.ref == entry.ref)) slice

-- The removal of an entry from what its type is indexed in, and from the names.
unfoldable pub withdraw : HookType → Registry → String → HookEntry → Registry
withdraw pre r name entry = record r {
  pre_index = map_values (remove_from entry) r.pre_index;
  pre_wildcard = remove_from entry r.pre_wildcard;
  hooks = erase name r.hooks;
}
withdraw post r name entry = record r {
  post_index = map_values (remove_from entry) r.post_index;
  post_wildcard = remove_from entry r.post_wildcard;
  hooks = erase name r.hooks;
}

-- RemoveHook
unfoldable pub remove_hook : Registry → String → Registry × Option HookError
unfolding withdraw
remove_hook r name = elim (lookup name r.hooks) [
  | none ↦ (r, some (hook_not_found name))
  | some entry ↦ (withdraw entry.hook_type r name entry, none)
]

-- Clear
unfoldable pub clear : Registry → Registry
clear r = record r {
  pre_index = [];
  post_index = [];
  pre_wildcard = [];
  post_wildcard = [];
  hooks = [];
  next_seq = 0;
}
