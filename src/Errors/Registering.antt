-- ===== src/Errors/Registering.antt =====
-- hooks/registry.go: what `errors.Is` tells of the errors of registration and removal.
use go_fsm.Base.{
  suc, ◌≡◌, ◌∙◌, refl, inl, inr, String, Bool, false, not, ◌&&◌, Option, none, some, List, [], ◌∷◌,
  ◌==◌, string_eq, arith, Bool-cases, Result, ok, err, Result-cases,
}
use go_fsm.Base.Lists.{contains, set_add}
use go_fsm.Base.Maps.{has_key, is_some}
use go_fsm.Hooks.Entry.{HookType, pre, post, HookEntry, has_wildcard_pattern}
use go_fsm.Hooks.Registry.{
  HookError, Registry, StateTable, is_unknown, unique_from, validate_unique_states, ◌>>=◌,
  build_concrete_index_keys, entry_keys, validate_entry, HookConfig, new_entry, register_hook_entry,
  register_hook,
}
use go_fsm.Hooks.Contract.{is_listed}
use go_fsm.Errors.{
  Sentinel, err_hook_name_empty, err_hook_func_nil, err_hook_name_already_exists, sentinel_eq,
  wraps_hook,
}

abbrev pub hook_fails_with : Option HookError → Sentinel → Bool
hook_fails_with none target = false
hook_fails_with (some e) target = contains (wraps_hook e) target

abbrev keys_fail_with {ℓ} : {A : Type ℓ} → Result HookError A → Sentinel → Bool
keys_fail_with (ok _) target = false
keys_fail_with (err e) target = contains (wraps_hook e) target

unique_quiet :
    (table : Option StateTable) (unique patterns : List String) (s : Sentinel)
    → keys_fail_with (unique_from table unique patterns) s ≡ false
unfolding unique_from contains
unique_quiet table unique [] s = refl
unique_quiet table unique (pattern ∷ rest) s = elim (Bool-cases (is_unknown table pattern)) [
  | inl h ↦ rw h refl
  | inr h ↦ rw h (unique_quiet table (set_add unique pattern) rest s)
]

bind_quiet :
    {A B : Type 0} (m : Result HookError A) (f : A → Result HookError B) (s : Sentinel)
    → keys_fail_with m s ≡ false
    → ((a : A) → keys_fail_with (f a) s ≡ false)
    → keys_fail_with (m >>= f) s ≡ false
bind_quiet (ok a) f s h k = k a
bind_quiet (err e) f s h k = h

entry_keys_quiet :
    (r : Registry) (e : HookEntry) (s : Sentinel) → keys_fail_with (entry_keys r e) s ≡ false
unfolding entry_keys build_concrete_index_keys validate_unique_states contains
entry_keys_quiet r e s = elim (Bool-cases (has_wildcard_pattern e)) [
  | inl w ↦
      rw w (elim (Bool-cases (is_some r.transitions)) [ inl h ↦ rw h refl | inr h ↦ rw h refl ])
  | inr w ↦ rw w (
      bind_quiet (unique_from r.transitions [] e.from_states) _ s
        (unique_quiet r.transitions [] e.from_states s)
        (λ froms.
          bind_quiet (unique_from r.transitions [] e.to_states) _ s
            (unique_quiet r.transitions [] e.to_states s) (λ tos. refl)))
]

-- What errors.Is answers of a registration, by its conditions.
abbrev pub TellsOf : HookConfig → Bool → (Sentinel → Bool) → Type 0
TellsOf config taken tells =
    let named = not (config.name == "") in
    let listed = is_listed config.from && is_listed config.to in
    let given = is_some config.func in
    (tells err_hook_name_empty ≡ not named)
    × (tells err_hook_func_nil ≡ (named && (listed && not given)))
    × (tells err_hook_name_already_exists ≡ (named && (listed && (given && taken))))

validated_tells :
    (t : HookType) (r : Registry) (config : HookConfig)
    → TellsOf config (has_key config.name r.hooks) (
        keys_fail_with (
          validate_entry
            (record r { next_ref = suc r.next_ref })
            config.name
            (new_entry t config r.next_ref)))
unfolding validate_entry contains
validated_tells pre r config =
    let quiet =
      entry_keys_quiet (record r { next_ref = suc r.next_ref }) (new_entry pre config r.next_ref) in
    (
      ground (arith, quiet err_hook_name_empty),
      ground (arith, quiet err_hook_func_nil),
      ground (arith, quiet err_hook_name_already_exists),
    )
validated_tells post r config =
    let quiet =
      entry_keys_quiet (record r { next_ref = suc r.next_ref })
        (new_entry post config r.next_ref) in
    (
      ground (arith, quiet err_hook_name_empty),
      ground (arith, quiet err_hook_func_nil),
      ground (arith, quiet err_hook_name_already_exists),
    )

register_hook_told :
    (t : HookType) (r : Registry) (config : HookConfig) (s : Sentinel)
    → hook_fails_with (register_hook t r config).1 s
      ≡ keys_fail_with
          (validate_entry
            (record r { next_ref = suc r.next_ref })
            config.name
            (new_entry t config r.next_ref))
          s
unfolding register_hook register_hook_entry
register_hook_told t r config s =
    elim (Result-cases (
      validate_entry (record r { next_ref = suc r.next_ref }) config.name
        (new_entry t config r.next_ref))) [
          | inl (ks, e) ↦ rw (e, register_hook_entry) refl
          | inr (error, e) ↦ rw (e, register_hook_entry) refl
        ]

-- Of the error of a registration, errors.Is finds ErrHookNameEmpty exactly where the name is empty,
-- ErrHookFuncNil exactly where it is not, both lists have states and the callback is nil, and
-- ErrHookNameAlreadyExists exactly where all of these are given and the name is taken.
pub register_hook-fails_with :
    (t : HookType) (r : Registry) (config : HookConfig)
    → TellsOf config (has_key config.name r.hooks) (hook_fails_with (register_hook t r config).1)
register_hook-fails_with t r config =
    let told = register_hook_told t r config in
    let (a, b, c) = validated_tells t r config in
    (
      told err_hook_name_empty ∙ a,
      told err_hook_func_nil ∙ b,
      told err_hook_name_already_exists ∙ c,
    )
