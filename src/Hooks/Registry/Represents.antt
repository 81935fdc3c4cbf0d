-- ===== src/Hooks/Registry/Represents.antt =====
-- The registry's indexes against one list of its hooks in order of registration.
use go_fsm.Base.{
  ◌<◌, ◌≡◌, refl, ap, String, Bool, not, ◌&&◌, Option, none, some, List, [], ◌∷◌, ◌++◌, nat_eq,
  string_eq, leb, arith,
}
use go_fsm.Base.Lists.{All, All-append, keep, IsUnique}
use go_fsm.Base.Maps.{Map, lookup, get_or, keys}
use go_fsm.Base.Sort.{IsAscending, Before}
use go_fsm.Hooks.Entry.{
  HookEntry, HookType, TransitionKey, key_eq, is_type, has_wildcard_pattern, matches, pre, post,
  seq_leb,
}
use go_fsm.Hooks.Registry.{Registry, StateTable, new_registry, index_of, wildcard_of}

-- Named entries, in order of registration.
abbrev pub Log : Type 0
Log = Map String HookEntry

abbrev pub entries : Log → List HookEntry
entries [] = []
entries ((name, e) ∷ log) = e ∷ entries log

-- The entries that belong into the slice of a key, and among the wildcard hooks.
abbrev pub is_concrete : HookType → TransitionKey → HookEntry → Bool
is_concrete t k e = is_type t e.hook_type && (not (has_wildcard_pattern e) && matches k.from k.to e)

abbrev pub is_wildcard : HookType → HookEntry → Bool
is_wildcard t e = is_type t e.hook_type && has_wildcard_pattern e

abbrev pub ref_leb : HookEntry → HookEntry → Bool
ref_leb a b = leb a.ref b.ref

-- The entry's numbers are below the registry's counters.
abbrev pub IsBelow : Registry → HookEntry → Type 0
IsBelow r e = (e.registration_seq < r.next_seq) × (e.ref < r.next_ref)

pub record Represents (r : Registry) (log : Log) : Type 0 where
  pub names : IsUnique (keys log)
  pub by_name : (name : String) → lookup name r.hooks ≡ lookup name log
  pub concrete :
      (t : HookType) (k : TransitionKey)
      → get_or [] k (index_of t r) ≡ keep (is_concrete t k) (entries log)
  pub wildcard : (t : HookType) → wildcard_of t r ≡ keep (is_wildcard t) (entries log)
  pub by_seq : IsAscending seq_leb (entries log)
  pub by_ref : IsAscending ref_leb (entries log)
  pub below : All (IsBelow r) (entries log)

pub entries-append : (xs ys : Log) → entries (xs ++ ys) ≡ entries xs ++ entries ys
entries-append [] ys = refl
entries-append ((name, e) ∷ xs) ys = ap (λ l. e ∷ l) (entries-append xs ys)

pub keys-append : (xs ys : Log) → keys (xs ++ ys) ≡ keys xs ++ keys ys
keys-append [] ys = refl
keys-append ((name, e) ∷ xs) ys = ap (λ l. name ∷ l) (keys-append xs ys)

pub lookup-append :
    (name : String) (xs ys : Log)
    → lookup name (xs ++ ys) ≡ elim (lookup name xs) [ none ↦ lookup name ys | some e ↦ some e ]
unfolding lookup
lookup-append name [] ys = refl
lookup-append name ((n, e) ∷ xs) ys = ground (arith, lookup-append name xs ys)

-- An ascending list grows at its end by an entry that comes after all others.
pub IsAscending-snoc :
    (le : HookEntry → HookEntry → Bool) (xs : List HookEntry) (x : HookEntry)
    → IsAscending le xs
    → All (λ y. Before le y x) xs
    → IsAscending le (xs ++ x ∷ [])
IsAscending-snoc le [] x s h = (tt, tt)
IsAscending-snoc le (y ∷ xs) x s h =
    (All-append (Before le y) xs (x ∷ []) s.0 (h.0, tt), IsAscending-snoc le xs x s.1 h.1)

module _ (table : Option StateTable) where
  no_concrete :
      (t : HookType) (k : TransitionKey) → get_or [] k (index_of t (new_registry table)) ≡ []
  unfolding new_registry get_or lookup
  no_concrete pre k = refl
  no_concrete post k = refl

  no_wildcard : (t : HookType) → wildcard_of t (new_registry table) ≡ []
  unfolding new_registry
  no_wildcard pre = refl
  no_wildcard post = refl

-- A new registry has no hooks.
pub new_registry-Represents : (table : Option StateTable) → Represents (new_registry table) []
unfolding new_registry get_or lookup
new_registry-Represents table = record {
  names = tt;
  by_name = λ name. refl;
  concrete = no_concrete table;
  wildcard = no_wildcard table;
  by_seq = tt;
  by_ref = tt;
  below = tt;
}
