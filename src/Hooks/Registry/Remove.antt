-- ===== src/Hooks/Registry/Remove.antt =====
-- RemoveHook and Clear (hooks/registry.go) against the list of hooks.
use go_fsm.Base.{
  ◌≡◌, ◌∙◌, refl, sym, ap, inl, inr, ◌⊎◌, String, Bool, true, false, none, some, [], if◌then◌else◌,
  nat_eq, string_eq, arith, Option-cases,
}
use go_fsm.Base.Lists.{All-keep, All-map, keep, keep-keep_comm}
use go_fsm.Base.Maps.{
  erase-IsUnique, lookup, erase, lookup-erase, get_or, get_or-map_values, has_key, is_some,
  contains-keys,
}
use go_fsm.Hooks.Entry.{HookEntry, HookType, pre, post, TransitionKey, key_eq, is_type, seq_leb}
use go_fsm.Hooks.Registry.{Registry, hook_not_found, index_of, wildcard_of}
use go_fsm.Hooks.Registry.Removal.{remove_from, withdraw, remove_hook, clear}
use go_fsm.Hooks.Registry.Represents.{
  Log, entries, is_concrete, is_wildcard, ref_leb, IsBelow, Represents,
}
use go_fsm.Hooks.Registry.Erase.{
  others, remove_from-keep, erase_absent, entries-erase, keep-erase, IsAscending-keep,
}

-- The lists of each type after a withdrawal.
module _ (r : Registry) (name : String) (e : HookEntry) where
  get_or-withdraw :
      (u t : HookType) (k : TransitionKey)
      → get_or [] k (index_of t (withdraw u r name e)) ≡ (
          if is_type t u
          then keep (others e) (get_or [] k (index_of t r))
          else get_or [] k (index_of t r))
  unfolding withdraw
  get_or-withdraw pre pre k =
      get_or-map_values (remove_from e) [] k r.pre_index (remove_from-keep e [])
      ∙ remove_from-keep e (get_or [] k r.pre_index)
  get_or-withdraw pre post k = refl
  get_or-withdraw post pre k = refl
  get_or-withdraw post post k =
      get_or-map_values (remove_from e) [] k r.post_index (remove_from-keep e [])
      ∙ remove_from-keep e (get_or [] k r.post_index)

  wildcard-withdraw :
      (u t : HookType)
      → wildcard_of t (withdraw u r name e)
        ≡ (if is_type t u then keep (others e) (wildcard_of t r) else wildcard_of t r)
  unfolding withdraw
  wildcard-withdraw pre pre = remove_from-keep e r.pre_wildcard
  wildcard-withdraw pre post = refl
  wildcard-withdraw post pre = refl
  wildcard-withdraw post post = remove_from-keep e r.post_wildcard

  withdraw_rest :
      (u : HookType)
      → ((withdraw u r name e).hooks ≡ erase name r.hooks)
        × ((withdraw u r name e).next_seq ≡ r.next_seq)
        × ((withdraw u r name e).next_ref ≡ r.next_ref)
        × ((withdraw u r name e).transitions ≡ r.transitions)
  unfolding withdraw
  withdraw_rest pre = (refl, refl, refl, refl)
  withdraw_rest post = (refl, refl, refl, refl)

module _ {r : Registry} {log : Log} (v : Represents r log) (name : String) {e : HookEntry}
    (found : lookup name log ≡ some e) where
  abbrev after : Registry
  after = withdraw e.hook_type r name e

  shrunk : entries (erase name log) ≡ keep (others e) (entries log)
  shrunk = entries-erase name log v.names v.by_ref found

  -- The part of the list that a test keeps, where the entry is dropped if the test is of its type.
  kept_part :
      (b : Bool) (p : HookEntry → Bool)
      → (b ≡ false → p e ≡ false)
      → (if b then keep (others e) (keep p (entries log)) else keep p (entries log))
        ≡ keep p (entries (erase name log))
  kept_part true p h = keep-keep_comm (others e) p (entries log) ∙ ap (keep p) (sym shrunk)
  kept_part false p h = sym (keep-erase p name log v.names found (h refl))

  after-concrete :
      (t : HookType) (k : TransitionKey)
      → get_or [] k (index_of t after) ≡ keep (is_concrete t k) (entries (erase name log))
  after-concrete t k =
      get_or-withdraw r name e e.hook_type t k
      ∙ rw (v.concrete t k) (kept_part (is_type t e.hook_type) (is_concrete t k) (λ h. rw h))

  after-wildcard :
      (t : HookType) → wildcard_of t after ≡ keep (is_wildcard t) (entries (erase name log))
  after-wildcard t =
      wildcard-withdraw r name e e.hook_type t
      ∙ rw (v.wildcard t) (kept_part (is_type t e.hook_type) (is_wildcard t) (λ h. rw h))

  after-by_name : (n : String) → lookup n after.hooks ≡ lookup n (erase name log)
  after-by_name n =
      ap (lookup n) (withdraw_rest r name e e.hook_type).0
      ∙ lookup-erase name n r.hooks
      ∙ rw (v.by_name n) (sym (lookup-erase name n log))

  withdraw-Represents : Represents after (erase name log)
  withdraw-Represents =
      let (_, seq, ref, _) = withdraw_rest r name e e.hook_type in
      record {
        names = erase-IsUnique name log v.names;
        by_name = after-by_name;
        concrete = after-concrete;
        wildcard = after-wildcard;
        by_seq = rw shrunk (IsAscending-keep seq_leb (others e) (entries log) v.by_seq);
        by_ref = rw shrunk (IsAscending-keep ref_leb (others e) (entries log) v.by_ref);
        below = rw shrunk (
            All-map (λ x b. (omega (arith, seq), omega (arith, ref))) _
              (All-keep (IsBelow r) (others e) (entries log) v.below));
      }

-- A removal takes the named hook out of the list that the registry represents; it returns an error
-- exactly when no hook has the name, and then changes nothing.
pub remove_hook-Represents :
    (r : Registry) (name : String) (log : Log)
    → Represents r log
    → (Represents (remove_hook r name).0 (erase name log))
      × (((lookup name log ≡ none) × (remove_hook r name ≡ (r, some (hook_not_found name))))
          ⊎ ((has_key name log ≡ true) × ((remove_hook r name).1 ≡ none)))
unfolding remove_hook
remove_hook-Represents r name log v = elim (Option-cases (lookup name log)) [
  | inl n ↦
      let q : remove_hook r name ≡ (r, some (hook_not_found name)) =
        rw (v.by_name name ∙ n, remove_hook) refl in
      (rw (q, erase_absent name log (contains-keys log name ∙ ap is_some n)) v, inl (n, q))
  | inr (e, f) ↦
      let q : remove_hook r name ≡ (withdraw e.hook_type r name e, none) =
        rw (v.by_name name ∙ f, remove_hook) refl in
      (rw q (withdraw-Represents v name f), inr (ap is_some f, rw q))
]

pub remove_hook-transitions :
    (r : Registry) (name : String) → (remove_hook r name).0.transitions ≡ r.transitions
unfolding remove_hook
remove_hook-transitions r name = elim (Option-cases (lookup name r.hooks)) [
  | inl n ↦ rw (n, remove_hook)
  | inr (e, f) ↦ rw (f, remove_hook) (withdraw_rest r name e e.hook_type).3
]

module _ (r : Registry) where
  clear_concrete : (t : HookType) (k : TransitionKey) → get_or [] k (index_of t (clear r)) ≡ []
  unfolding clear get_or lookup
  clear_concrete pre k = refl
  clear_concrete post k = refl

  clear_wildcard : (t : HookType) → wildcard_of t (clear r) ≡ []
  unfolding clear
  clear_wildcard pre = refl
  clear_wildcard post = refl

  -- After Clear no hook is left.
  pub clear-Represents : Represents (clear r) []
  unfolding clear lookup
  clear-Represents = record {
    names = tt;
    by_name = λ name. refl;
    concrete = clear_concrete;
    wildcard = clear_wildcard;
    by_seq = tt;
    by_ref = tt;
    below = tt;
  }
