-- ===== src/Hooks/Registry/Register.antt =====
-- Registration (hooks/registry.go, registerHookEntry) against the list of hooks.
use mathlib.Core.List.{append-nil}
use go_fsm.Base.{
  suc, ◌≡◌, ◌∙◌, refl, sym, ap, inl, inr, String, Bool, true, false, not, ◌&&◌, List, [], ◌∷◌, ◌++◌,
  if◌then◌else◌, nat_eq, string_eq, arith, ok, Bool-cases,
}
use go_fsm.Base.Lists.{
  All, All-append, All-map, contains, keep, keep-append, IsUnique, IsUnique-snoc,
}
use go_fsm.Base.Maps.{lookup, insert, lookup-insert, get_or, keys, has_key, is_some, contains-keys}
use go_fsm.Base.Sort.{IsAscending}
use go_fsm.Hooks.Entry.{
  HookEntry, HookType, pre, post, TransitionKey, key_eq, is_type, has_wildcard_pattern, matches,
  seq_leb,
}
use go_fsm.Hooks.Registry.{Registry, index_of, wildcard_of, validate_entry, place, stored}
use go_fsm.Hooks.Registry.Represents.{
  Log, entries, is_concrete, is_wildcard, ref_leb, IsBelow, Represents, entries-append, keys-append,
  lookup-append, IsAscending-snoc,
}
use go_fsm.Hooks.Registry.Place.{
  get_or-place, wildcard-place, place_rest, validate_entry_ok, entry_keys_ok,
}

if_append {ℓ} :
    {A : Type ℓ} (b c : Bool) (xs : List A) (x : A)
    → b ≡ c
    → (if b then xs ++ x ∷ [] else xs) ≡ xs ++ (if c then x ∷ [] else [])
if_append true true xs x h = refl
if_append false false xs x h = sym (append-nil xs)
if_append true false xs x h = absurd (cc)
if_append false true xs x h = absurd (cc)

-- A registration that passes its validation, field by field. `e` is the entry as allocated.
module _ {r : Registry} {log : Log} (v : Represents r log) (name : String) (e : HookEntry)
    {ks : List TransitionKey} (fresh : e.ref ≡ r.next_ref)
    (valid : validate_entry (record r { next_ref = suc r.next_ref }) name e ≡ ok ks) where
  abbrev before : Registry
  before = record r { next_ref = suc r.next_ref }

  abbrev counted : Registry
  counted = record before {
    next_seq = suc r.next_seq;
    hooks = insert name (stored before e) r.hooks;
  }

  abbrev after : Registry
  after = place e.hook_type (has_wildcard_pattern e) counted ks (stored before e)

  abbrev grown : Log
  grown = log ++ (name, stored before e) ∷ []

  new_name : has_key name log ≡ false
  new_name = ap is_some (sym (v.by_name name)) ∙ (validate_entry_ok before name e valid).0

  after-names : IsUnique (keys grown)
  after-names =
      rw (keys-append log ((name, stored before e) ∷ []))
        (IsUnique-snoc (keys log) name v.names (contains-keys log name ∙ new_name))

  after-by_name : (n : String) → lookup n after.hooks ≡ lookup n grown
  unfolding lookup
  after-by_name n =
      ap (lookup n) (place_rest counted ks (stored before e) e.hook_type (has_wildcard_pattern e)).0
      ∙ lookup-insert name n (stored before e) r.hooks
      ∙ ground (
        arith,
        lookup-append n log ((name, stored before e) ∷ []),
        v.by_name n,
        new_name,
        string_eq.equals_iff name n,
      )

  entries_grown : entries grown ≡ entries log ++ stored before e ∷ []
  entries_grown = entries-append log ((name, stored before e) ∷ [])

  index_counted : (t : HookType) → index_of t counted ≡ index_of t r
  index_counted pre = refl
  index_counted post = refl

  wildcard_counted : (t : HookType) → wildcard_of t counted ≡ wildcard_of t r
  wildcard_counted pre = refl
  wildcard_counted post = refl

  in_slice_allocated :
      (t : HookType) (k : TransitionKey)
      → (is_type t e.hook_type && (not (has_wildcard_pattern e) && contains ks k))
        ≡ is_concrete t k e
  in_slice_allocated t k = elim (Bool-cases (has_wildcard_pattern e)) [
    | inl w ↦ ground arith
    | inr w ↦
        ap (λ b. is_type t e.hook_type && (not (has_wildcard_pattern e) && b))
          ((entry_keys_ok before e (validate_entry_ok before name e valid).1 w).1 k)
  ]

  in_slice :
      (t : HookType) (k : TransitionKey)
      → (is_type t e.hook_type && (not (has_wildcard_pattern e) && contains ks k))
        ≡ is_concrete t k (stored before e)
  unfolding has_wildcard_pattern matches
  in_slice t k = in_slice_allocated t k

  after-concrete :
      (t : HookType) (k : TransitionKey)
      → get_or [] k (index_of t after) ≡ keep (is_concrete t k) (entries grown)
  unfolding has_wildcard_pattern matches
  after-concrete t k =
      get_or-place counted ks (stored before e) e.hook_type (has_wildcard_pattern e) t k
        (λ w. (entry_keys_ok before e (validate_entry_ok before name e valid).1 w).0)
      ∙ rw (index_counted t, v.concrete t k, entries_grown, keep-append)
          (if_append _ _ (keep (is_concrete t k) (entries log)) (stored before e) (in_slice t k))

  after-wildcard : (t : HookType) → wildcard_of t after ≡ keep (is_wildcard t) (entries grown)
  unfolding has_wildcard_pattern
  after-wildcard t =
      wildcard-place counted ks (stored before e) e.hook_type (has_wildcard_pattern e) t
      ∙ rw (wildcard_counted t, v.wildcard t, entries_grown, keep-append)
          (if_append _ _ (keep (is_wildcard t) (entries log)) (stored before e) refl)

  counted-IsBelow : All (IsBelow counted) (entries log)
  counted-IsBelow = All-map (λ x b. omega arith) (entries log) v.below

  after-IsBelow : All (IsBelow counted) (entries grown)
  after-IsBelow = rw entries_grown (
      All-append (IsBelow counted) (entries log) (stored before e ∷ []) counted-IsBelow
        ((omega arith, omega (arith, fresh)), tt))

  after-by_seq : IsAscending seq_leb (entries grown)
  after-by_seq = rw entries_grown (
      IsAscending-snoc seq_leb (entries log) (stored before e) v.by_seq
        (All-map (λ x b. ground arith) (entries log) v.below))

  after-by_ref : IsAscending ref_leb (entries grown)
  after-by_ref = rw entries_grown (
      IsAscending-snoc ref_leb (entries log) (stored before e) v.by_ref
        (All-map (λ x b. ground arith) (entries log) v.below))

  pub after-Represents : Represents after grown
  after-Represents =
      let (_, seq, ref, _) =
        place_rest counted ks (stored before e) e.hook_type (has_wildcard_pattern e) in
      record {
        names = after-names;
        by_name = after-by_name;
        concrete = after-concrete;
        wildcard = after-wildcard;
        by_seq = after-by_seq;
        by_ref = after-by_ref;
        below =
            All-map (λ x b. (omega (arith, seq), omega (arith, ref))) (entries grown) after-IsBelow;
      }
