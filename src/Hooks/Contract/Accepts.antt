-- ===== src/Hooks/Contract/Accepts.antt =====
-- Validation (hooks/registry.go, registerHookEntry) against the contract's test.
use go_fsm.Base.{
  ◌≡◌, ◌∙◌, refl, ap, inl, inr, String, Bool, true, false, not, ◌&&◌, Option, none, some, List, [],
  ◌∷◌, string_eq, Result-cases, arith, Result, ok, err, suc,
}
use go_fsm.Base.Lists.{set_add}
use go_fsm.Base.Maps.{has_key, is_some}
use go_fsm.Hooks.Entry.{HookType, pre, post, has_wildcard_pattern}
use go_fsm.Hooks.Registry.{
  StateTable, HookConfig, Registry, is_unknown, unique_from, validate_unique_states,
  build_concrete_index_keys, entry_keys, validate_entry, new_entry, ◌>>=◌, register_hook,
  register_hook_entry,
}
use go_fsm.Hooks.Contract.{accepts_if, all_known, is_known}

abbrev pub is_ok {ℓ κ} : {E : Type ℓ} {A : Type κ} → Result E A → Bool
is_ok (ok _) = true
is_ok (err _) = false

is_unknown-is_known :
    (table : Option StateTable) (s : String) → is_unknown table s ≡ not (is_known table s)
unfolding is_unknown
is_unknown-is_known none s = refl
is_unknown-is_known (some table) s = refl

unique_from-is_ok :
    (table : Option StateTable) (unique patterns : List String)
    → is_ok (unique_from table unique patterns) ≡ all_known table patterns
unfolding unique_from
unique_from-is_ok table unique [] = refl
unique_from-is_ok table unique (s ∷ rest) =
    ground (arith, is_unknown-is_known table s, unique_from-is_ok table (set_add unique s) rest)

bind-is_ok {ℓ κ μ} :
    {E : Type ℓ} {A : Type κ} {B : Type μ} (m : Result E A) (f : A → Result E B) (b : Bool)
    → ((a : A) → is_ok (f a) ≡ b)
    → is_ok (m >>= f) ≡ (is_ok m && b)
bind-is_ok (ok a) f b h = h a
bind-is_ok (err e) f b h = refl

build_concrete_index_keys-is_ok :
    (r : Registry) (froms tos : List String)
    → is_ok (build_concrete_index_keys r froms tos)
      ≡ (all_known r.transitions froms && all_known r.transitions tos)
unfolding build_concrete_index_keys validate_unique_states
build_concrete_index_keys-is_ok r froms tos =
    bind-is_ok (unique_from r.transitions [] froms) _ (all_known r.transitions tos) (λ fs.
      bind-is_ok (unique_from r.transitions [] tos) _ true (λ ts. refl)
      ∙ ground (arith, unique_from-is_ok r.transitions [] tos))
    ∙ ap (λ b. b && all_known r.transitions tos) (unique_from-is_ok r.transitions [] froms)

-- The validation of a new entry succeeds exactly when the contract's conditions hold.
pub validate_entry-is_ok :
    (t : HookType) (r : Registry) (config : HookConfig)
    → is_ok (
        validate_entry
          (record r { next_ref = suc r.next_ref })
          config.name
          (new_entry t config r.next_ref))
      ≡ accepts_if r.transitions (has_key config.name r.hooks) config
unfolding validate_entry entry_keys has_wildcard_pattern
validate_entry-is_ok pre r config = ground (
  arith,
  build_concrete_index_keys-is_ok (record r { next_ref = suc r.next_ref }) config.from config.to,
)
validate_entry-is_ok post r config = ground (
  arith,
  build_concrete_index_keys-is_ok (record r { next_ref = suc r.next_ref }) config.from config.to,
)

-- A registration returns an error exactly when its validation fails.
pub register_hook-is_ok :
    (t : HookType) (r : Registry) (config : HookConfig)
    → is_ok (
        validate_entry
          (record r { next_ref = suc r.next_ref })
          config.name
          (new_entry t config r.next_ref))
      ≡ not (is_some (register_hook t r config).1)
unfolding register_hook register_hook_entry
register_hook-is_ok t r config =
    elim (Result-cases (
      validate_entry (record r { next_ref = suc r.next_ref }) config.name
        (new_entry t config r.next_ref))) [
          | inl (ks, e) ↦ rw (e, register_hook_entry)
          | inr (error, e) ↦ rw (e, register_hook_entry)
        ]
