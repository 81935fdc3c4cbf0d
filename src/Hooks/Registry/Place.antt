-- ===== src/Hooks/Registry/Place.antt =====
-- Validation and indexing in a registration (hooks/registry.go, registerHookEntry).
use go_fsm.Base.{
  ◌≡◌, ◌∙◌, refl, sym, String, Bool, true, false, not, ◌&&◌, List, [], ◌∷◌, ◌++◌, if◌then◌else◌,
  nat_eq, string_eq, arith, ok,
}
use go_fsm.Base.Lists.{contains, IsUnique}
use go_fsm.Base.Maps.{get_or, has_key}
use go_fsm.Hooks.Entry.{
  HookEntry, HookType, pre, post, TransitionKey, key_eq, is_type, has_wildcard_pattern, matches,
}
use go_fsm.Hooks.Registry.{Registry, index_of, wildcard_of, entry_keys, validate_entry, place}
use go_fsm.Hooks.Registry.Keys.{get_or-index_under, build_concrete_index_keys_ok}

-- Where an entry of type `u` goes, with a wildcard or without.
module _ (r : Registry) (ks : List TransitionKey) (e : HookEntry) where
  pub get_or-place :
      (u : HookType) (w : Bool) (t : HookType) (k : TransitionKey)
      → (w ≡ false → IsUnique ks)
      → get_or [] k (index_of t (place u w r ks e)) ≡ (
          if is_type t u && (not w && contains ks k)
          then get_or [] k (index_of t r) ++ e ∷ []
          else get_or [] k (index_of t r))
  unfolding place
  get_or-place pre true pre k h = refl
  get_or-place pre true post k h = refl
  get_or-place post true pre k h = refl
  get_or-place post true post k h = refl
  get_or-place pre false pre k h = get_or-index_under r.pre_index ks e k (h refl)
  get_or-place pre false post k h = refl
  get_or-place post false pre k h = refl
  get_or-place post false post k h = get_or-index_under r.post_index ks e k (h refl)

  pub wildcard-place :
      (u : HookType) (w : Bool) (t : HookType)
      → wildcard_of t (place u w r ks e)
        ≡ (if is_type t u && w then wildcard_of t r ++ e ∷ [] else wildcard_of t r)
  unfolding place
  wildcard-place pre true pre = refl
  wildcard-place pre true post = refl
  wildcard-place post true pre = refl
  wildcard-place post true post = refl
  wildcard-place pre false pre = refl
  wildcard-place pre false post = refl
  wildcard-place post false pre = refl
  wildcard-place post false post = refl

  -- The rest of the registry is left alone.
  pub place_rest :
      (u : HookType) (w : Bool)
      → ((place u w r ks e).hooks ≡ r.hooks)
        × ((place u w r ks e).next_seq ≡ r.next_seq)
        × ((place u w r ks e).next_ref ≡ r.next_ref)
        × ((place u w r ks e).transitions ≡ r.transitions)
  unfolding place
  place_rest pre true = (refl, refl, refl, refl)
  place_rest pre false = (refl, refl, refl, refl)
  place_rest post true = (refl, refl, refl, refl)
  place_rest post false = (refl, refl, refl, refl)

-- What a passed validation says.
pub validate_entry_ok :
    (r : Registry) (name : String) (e : HookEntry) {ks : List TransitionKey}
    → validate_entry r name e ≡ ok ks
    → (has_key name r.hooks ≡ false) × (entry_keys r e ≡ ok ks)
unfolding validate_entry
validate_entry_ok r name e h = ground arith

-- Without a wildcard, matching is membership in the entry's lists.
matches_concrete :
    (from to : String) (e : HookEntry)
    → has_wildcard_pattern e ≡ false
    → matches from to e ≡ (contains e.from_states from && contains e.to_states to)
unfolding matches has_wildcard_pattern
matches_concrete from to e w = ground arith

-- The keys of a concrete entry are distinct, and are the transitions that it matches.
pub entry_keys_ok :
    (r : Registry) (e : HookEntry) {ks : List TransitionKey}
    → entry_keys r e ≡ ok ks
    → has_wildcard_pattern e ≡ false
    → IsUnique ks × ((k : TransitionKey) → contains ks k ≡ matches k.from k.to e)
unfolding entry_keys
entry_keys_ok r e h w =
    let built = build_concrete_index_keys_ok r e.from_states e.to_states (rw w at h) in
    (built.0, λ k. built.1 k ∙ sym (matches_concrete k.from k.to e w))
