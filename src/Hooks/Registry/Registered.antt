-- ===== src/Hooks/Registry/Registered.antt =====
-- Registration (hooks/registry.go, RegisterPreTransitionHook and RegisterPostTransitionHook) against
-- the list of hooks.
use go_fsm.Base.{
  ℕ, suc, ◌≡◌, ◌∙◌, refl, sym, ap, subst, inl, inr, ◌⊎◌, Option, none, some, List, [], ◌∷◌, ◌++◌,
  nat_eq, string_eq, arith, Result, ok, err, Result-cases,
}
use go_fsm.Base.Lists.{All-map, keep}
use go_fsm.Base.Maps.{insert, get_or}
use go_fsm.Hooks.Entry.{HookEntry, HookType, pre, post, TransitionKey, key_eq, has_wildcard_pattern}
use go_fsm.Hooks.Registry.{
  Registry, HookError, HookConfig, index_of, wildcard_of, validate_entry, index_entry, place,
  stored, register_hook_entry, register_hook, new_entry,
}
use go_fsm.Hooks.Registry.Represents.{Log, entries, is_concrete, is_wildcard, Represents}
use go_fsm.Hooks.Registry.Place.{place_rest}
use go_fsm.Hooks.Registry.Register.{after-Represents}

-- The stored form of the entry that a registration allocates.
abbrev pub registered_entry : HookType → Registry → HookConfig → HookEntry
registered_entry t r config = stored r (new_entry t config r.next_ref)

new_entry-ref : (t : HookType) (config : HookConfig) (n : ℕ) → (new_entry t config n).ref ≡ n
new_entry-ref pre config n = refl
new_entry-ref post config n = refl

module _ (t : HookType) (r : Registry) (config : HookConfig) where
  abbrev pub allocated : HookEntry
  allocated = new_entry t config r.next_ref

  -- Phase 1 of this registration.
  abbrev pub validated : Result HookError (List TransitionKey)
  validated = validate_entry (record r { next_ref = suc r.next_ref }) config.name allocated

  pub register_hook_ok :
      (ks : List TransitionKey)
      → validated ≡ ok ks
      → register_hook t r config ≡ (
        place allocated.hook_type
            (has_wildcard_pattern allocated)
            (record r {
              next_ref = suc r.next_ref;
              next_seq = suc r.next_seq;
              hooks = insert config.name (registered_entry t r config) r.hooks;
            })
            ks
            (registered_entry t r config),
        none,
      )
  unfolding register_hook register_hook_entry index_entry
  register_hook_ok ks e = rw (e, register_hook_entry)

  register_hook_err :
      (error : HookError)
      → validated ≡ err error
      → register_hook t r config ≡ (record r { next_ref = suc r.next_ref }, some error)
  unfolding register_hook register_hook_entry
  register_hook_err error e = rw (e, register_hook_entry)

pub register_hook-transitions :
    (t : HookType) (r : Registry) (config : HookConfig)
    → (register_hook t r config).0.transitions ≡ r.transitions
register_hook-transitions t r config = elim (Result-cases (validated t r config)) [
  | inl (ks, e) ↦
      ap (λ (p : Registry × Option HookError). p.0.transitions) (register_hook_ok t r config ks e)
      ∙ (place_rest _ ks (registered_entry t r config) (allocated t r config).hook_type
          (has_wildcard_pattern (allocated t r config))).3
  | inr (error, e) ↦
      ap (λ (p : Registry × Option HookError). p.0.transitions)
        (register_hook_err t r config error e)
]

-- The names after a registration.
pub register_hook-hooks :
    (t : HookType) (r : Registry) (config : HookConfig)
    → ((register_hook t r config).0.hooks ≡ r.hooks)
      ⊎ ((e : HookEntry) × ((register_hook t r config).0.hooks ≡ insert config.name e r.hooks))
register_hook-hooks t r config = elim (Result-cases (validated t r config)) [
  | inl (ks, e) ↦ inr (
    registered_entry t r config,
    ap (λ (p : Registry × Option HookError). p.0.hooks) (register_hook_ok t r config ks e)
        ∙ (place_rest _ ks (registered_entry t r config) (allocated t r config).hook_type
            (has_wildcard_pattern (allocated t r config))).0,
  )
  | inr (error, e) ↦
      inl
        (ap (λ (p : Registry × Option HookError). p.0.hooks) (register_hook_err t r config error e))
]

-- A registration appends one hook to the list that the registry's indexes, wildcard slices and
-- names represent, or returns an error and leaves the registry as it was but for the entry that it
-- allocated.
pub register_hook-Represents :
    (t : HookType) (r : Registry) (config : HookConfig) (log : Log)
    → Represents r log
    → (((register_hook t r config).1 ≡ none)
        × Represents
            (register_hook t r config).0
            (log ++ (config.name, registered_entry t r config) ∷ []))
      ⊎ ((error : HookError) × (register_hook t r config
            ≡ (record r { next_ref = suc r.next_ref }, some error)))
register_hook-Represents t r config log v = elim (Result-cases (validated t r config)) [
  | inl (ks, e) ↦
      let q = register_hook_ok t r config ks e in
      inl (
        ap (λ (p : Registry × Option HookError). p.1) q,
        subst
            (λ (p : Registry × Option HookError).
              Represents p.0 (log ++ (config.name, registered_entry t r config) ∷ []))
            (sym q)
            (after-Represents v config.name (allocated t r config)
              (new_entry-ref t config r.next_ref) e),
      )
  | inr (error, e) ↦ inr (error, register_hook_err t r config error e)
]

-- An allocation alone changes nothing.
pub allocate-Represents :
    {r : Registry} {log : Log}
    → Represents r log
    → Represents (record r { next_ref = suc r.next_ref }) log
allocate-Represents {r} {log} v = record {
  names = v.names;
  by_name = v.by_name;
  concrete = same_index;
  wildcard = same_wildcard;
  by_seq = v.by_seq;
  by_ref = v.by_ref;
  below = All-map (λ x b. omega arith) (entries log) v.below;
}
  where
    same_index :
        (t : HookType) (k : TransitionKey)
        → get_or [] k (index_of t (record r { next_ref = suc r.next_ref }))
          ≡ keep (is_concrete t k) (entries log)
    same_index pre k = v.concrete pre k
    same_index post k = v.concrete post k

    same_wildcard :
        (t : HookType)
        → wildcard_of t (record r { next_ref = suc r.next_ref })
          ≡ keep (is_wildcard t) (entries log)
    same_wildcard pre = v.wildcard pre
    same_wildcard post = v.wildcard post
