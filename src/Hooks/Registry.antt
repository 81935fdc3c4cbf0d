-- ===== src/Hooks/Registry.antt =====
-- hooks/registry.go: the registry's state, registration, removal and queries.
-- The mutex makes each method one atomic step; a method returns the new registry and its error.
pub mod Keys
pub mod Represents
pub mod Place
pub mod Register
pub mod Registered
pub mod Removal
pub mod Options
pub mod Erase
pub mod Remove
pub mod Listing
use go_fsm.Base.{
  ℕ, suc, ◌+◌, ◌≡◌, refl, String, Bool, true, false, not, ◌&&◌, ◌||◌, Option, none, some, List, [],
  ◌∷◌, ◌++◌, if◌then◌else◌, ◌==◌, nat_eq, string_eq, Result, ok, err,
}
use go_fsm.Base.Lists.{contains, keep, set_add}
use go_fsm.Base.Maps.{Map, lookup, insert, erase, get_or, map_values, has_key, is_some}
use go_fsm.Hooks.Entry.{HookEntry, HookType, pre, post, TransitionKey, key_eq, has_wildcard_pattern}

-- transitionDB, the state table that patterns are checked against.
pub record StateTable : Type 0 where
  pub has_state : String → Bool
  pub get_all_states : List String

pub data HookError : Type 0 where
  hook_name_empty : HookError
  empty_state_lists : HookError
  hook_func_nil : HookType → String → HookError
  hook_name_already_exists : String → HookError
  wildcard_without_table : HookError
  unknown_state : String → HookError
  hook_not_found : String → HookError

-- Registry, without its logger. `next_ref` is the allocator: the next address of a hookEntry.
pub record Registry : Type 0 where
  pub transitions : Option StateTable
  pub pre_index : Map TransitionKey (List HookEntry)
  pub post_index : Map TransitionKey (List HookEntry)
  pub pre_wildcard : List HookEntry
  pub post_wildcard : List HookEntry
  pub hooks : Map String HookEntry
  pub next_seq : ℕ
  pub next_ref : ℕ

-- The index map, and the wildcard hooks, of one type.
abbrev pub index_of : HookType → Registry → Map TransitionKey (List HookEntry)
index_of pre r = r.pre_index
index_of post r = r.post_index

abbrev pub wildcard_of : HookType → Registry → List HookEntry
wildcard_of pre r = r.pre_wildcard
wildcard_of post r = r.post_wildcard

-- NewRegistry, with the state table of WithTransitions if any.
unfoldable pub new_registry : Option StateTable → Registry
new_registry table = record {
  transitions = table;
  pre_index = [];
  post_index = [];
  pre_wildcard = [];
  post_wildcard = [];
  hooks = [];
  next_seq = 0;
  next_ref = 0;
}

-- The test of validateUniqueStates: a table is configured and lacks the pattern.
unfoldable pub is_unknown : Option StateTable → String → Bool
is_unknown none pattern = false
is_unknown (some table) pattern = not (table.has_state pattern)

-- The loop of validateUniqueStates. `seen` and `unique` hold the same states, so that one list is
-- both, and the append that a duplicate skips is `set_add`.
unfoldable pub unique_from :
    Option StateTable → List String → List String → Result HookError (List String)
unfolding is_unknown
unique_from table unique [] = ok unique
unique_from table unique (pattern ∷ rest) =
    let next = unique_from table (set_add unique pattern) rest in
    if is_unknown table pattern then err (unknown_state pattern) else next

-- validateUniqueStates
unfoldable pub validate_unique_states : Registry → List String → Result HookError (List String)
validate_unique_states r patterns = unique_from r.transitions [] patterns

pub keys_from : String → List String → List TransitionKey
keys_from from [] = []
keys_from from (to ∷ tos) = record { from = from; to = to } ∷ keys_from from tos

-- The two nested loops over the states.
pub product : List String → List String → List TransitionKey
unfolding keys_from
product [] tos = []
product (from ∷ froms) tos = keys_from from tos ++ product froms tos

infixl 5 ◌>>=◌
abbrev pub ◌>>=◌ {ℓ κ μ} :
    {E : Type ℓ} {A : Type κ} {B : Type μ} → Result E A → (A → Result E B) → Result E B
ok a >>= next = next a
err e >>= next = err e

-- Both steps of a chain that succeeds.
pub bind_ok {ℓ κ μ} :
    {E : Type ℓ} {A : Type κ} {B : Type μ} (m : Result E A) (f : A → Result E B) {b : B}
    → (m >>= f) ≡ ok b
    → (a : A) × (m ≡ ok a) × (f a ≡ ok b)
bind_ok (ok a) f h = (a, refl, h)
bind_ok (err e) f h = absurd (cc)

-- buildConcreteIndexKeys
unfoldable pub build_concrete_index_keys :
    Registry → List String → List String → Result HookError (List TransitionKey)
build_concrete_index_keys r from_patterns to_patterns = do
  from_states ← validate_unique_states r from_patterns
  to_states ← validate_unique_states r to_patterns
  ok (product from_states to_states)

-- The keys to index an entry under; none for a wildcard, which is not indexed.
unfoldable pub entry_keys : Registry → HookEntry → Result HookError (List TransitionKey)
entry_keys r entry =
    if has_wildcard_pattern entry
    then (if is_some r.transitions then ok [] else err wildcard_without_table)
    else build_concrete_index_keys r entry.from_states entry.to_states

-- The callback that the entry's type requires is nil.
lacks_callback : HookEntry → Bool
lacks_callback entry = elim entry.hook_type [
  | pre ↦ not (is_some entry.guard)
  | post ↦ not (is_some entry.action)
]

is_nil : List String → Bool
is_nil [] = true
is_nil (_ ∷ _) = false

-- Phase 1 of registerHookEntry: the keys, or the first error.
unfoldable pub validate_entry :
    Registry → String → HookEntry → Result HookError (List TransitionKey)
unfolding entry_keys lacks_callback is_nil
validate_entry r name entry =
    if name == ""
    then err hook_name_empty
    else if is_nil entry.from_states || is_nil entry.to_states
    then err empty_state_lists
    else if lacks_callback entry
    then err (hook_func_nil entry.hook_type name)
    else if has_key name r.hooks
    then err (hook_name_already_exists name)
    else entry_keys r entry

-- `for key in keys { index[key] = append(index[key], entry) }`
pub index_under :
    Map TransitionKey (List HookEntry)
    → List TransitionKey
    → HookEntry
    → Map TransitionKey (List HookEntry)
index_under index [] entry = index
index_under index (key ∷ keys) entry =
    index_under (insert key (get_or [] key index ++ entry ∷ []) index) keys entry

-- The four ways to index an entry, by its type and by whether it has a wildcard.
unfoldable pub place : HookType → Bool → Registry → List TransitionKey → HookEntry → Registry
place pre true r keys entry = record r { pre_wildcard = r.pre_wildcard ++ entry ∷ [] }
place pre false r keys entry = record r { pre_index = index_under r.pre_index keys entry }
place post true r keys entry = record r { post_wildcard = r.post_wildcard ++ entry ∷ [] }
place post false r keys entry = record r { post_index = index_under r.post_index keys entry }

-- Phase 3 of registerHookEntry.
unfoldable pub index_entry : Registry → List TransitionKey → HookEntry → Registry
unfolding place
index_entry r keys entry = place entry.hook_type entry.wildcard_present r keys entry

-- Phase 2: the entry as it is stored.
abbrev pub stored : Registry → HookEntry → HookEntry
stored r entry = record entry {
  registration_seq = r.next_seq;
  wildcard_present = has_wildcard_pattern entry;
}

-- registerHookEntry
unfoldable pub register_hook_entry : Registry → String → HookEntry → Registry × Option HookError
register_hook_entry r name entry = elim (validate_entry r name entry) [
  | err e ↦ (r, some e)
  | ok keys ↦
      let entry' = stored r entry in
      let r' = record r { next_seq = suc r.next_seq; hooks = insert name entry' r.hooks } in
      (index_entry r' keys entry', none)
]

-- PreTransitionHookConfig and PostTransitionHookConfig: `func` is the guard or the action.
pub record HookConfig : Type 0 where
  pub name : String
  pub from : List String
  pub to : List String
  pub func : Option ℕ

-- `&hookEntry{…}`
abbrev pub new_entry : HookType → HookConfig → ℕ → HookEntry
new_entry pre config ref = record {
  ref = ref;
  guard = config.func;
  action = none;
  from_states = config.from;
  to_states = config.to;
  hook_type = pre;
  registration_seq = 0;
  wildcard_present = false;
}
new_entry post config ref = record {
  ref = ref;
  guard = none;
  action = config.func;
  from_states = config.from;
  to_states = config.to;
  hook_type = post;
  registration_seq = 0;
  wildcard_present = false;
}

-- RegisterPreTransitionHook, RegisterPostTransitionHook: a new entry, then registerHookEntry.
unfoldable pub register_hook : HookType → Registry → HookConfig → Registry × Option HookError
register_hook t r config =
    register_hook_entry (record r { next_ref = suc r.next_ref }) config.name
      (new_entry t config r.next_ref)

abbrev pub register_pre_transition_hook : Registry → HookConfig → Registry × Option HookError
register_pre_transition_hook = register_hook pre

abbrev pub register_post_transition_hook : Registry → HookConfig → Registry × Option HookError
register_post_transition_hook = register_hook post
