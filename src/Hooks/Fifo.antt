-- ===== src/Hooks/Fifo.antt =====
-- The order of execution: what the executors of hooks/registry.go run, against the list of hooks.
use mathlib.Core.Path.{ap₂}
use go_fsm.Base.{◌≡◌, ◌∙◌, refl, sym, ap, String, Bool, ◌&&◌, List, [], ◌∷◌, ◌++◌, arith}
use go_fsm.Base.Lists.{keep, All_of_all, keep-congr, keep-keep}
use go_fsm.Base.Sort.{IsAscending, sort, sort-keep}
use go_fsm.Hooks.Entry.{HookEntry, HookType, TransitionKey, is_type, matches, seq_leb}
use go_fsm.Hooks.Registry.{Registry}
use go_fsm.Hooks.Registry.Represents.{Log, entries, is_concrete, is_wildcard, Represents}
use go_fsm.Hooks.Execute.{merge_entries, collect_entries}

-- The hooks of a type that match a transition.
abbrev pub fires : HookType → String → String → HookEntry → Bool
fires t from to e = is_type t e.hook_type && matches from to e

-- Where there is no wildcard hook of the type, the concrete ones are all that match.
no_wildcard :
    (t : HookType) (from to : String) (xs : List HookEntry)
    → keep (is_wildcard t) xs ≡ []
    → keep (is_concrete t (record { from = from; to = to })) xs ≡ keep (fires t from to) xs
no_wildcard t from to [] h = refl
no_wildcard t from to (x ∷ xs) h = ground (arith, no_wildcard t from to xs)

module _ (t : HookType) (from to : String) where
  abbrev key : TransitionKey
  key = record { from = from; to = to }

  -- Concrete hooks and matching wildcard hooks, sorted together, are all that match.
  merged :
      (xs : List HookEntry)
      → IsAscending seq_leb xs
      → sort seq_leb
          (keep (is_concrete t key) xs ++ keep (matches from to) (keep (is_wildcard t) xs))
        ≡ keep (fires t from to) xs
  merged xs s =
      ap (λ l. sort seq_leb (keep (is_concrete t key) xs ++ l))
        (keep-keep (matches from to) (is_wildcard t) xs)
      ∙ sort-keep seq_leb (is_concrete t key) (λ e. matches from to e && is_wildcard t e) xs
          (λ e. ground arith) s
      ∙ keep-congr _ _ xs (All_of_all _ (λ e. ground arith) xs)

  merge_entries-keep :
      (concrete wildcard xs : List HookEntry)
      → concrete ≡ keep (is_concrete t key) xs
      → wildcard ≡ keep (is_wildcard t) xs
      → IsAscending seq_leb xs
      → merge_entries from to concrete wildcard ≡ keep (fires t from to) xs
  unfolding merge_entries
  merge_entries-keep concrete [] xs c w s = c ∙ no_wildcard t from to xs (sym w)
  merge_entries-keep concrete (e ∷ es) xs c w s =
      ap₂ (λ l m. sort seq_leb (l ++ keep (matches from to) m)) c w ∙ merged xs s

-- In a registry that represents a list of hooks, the executors collect exactly the hooks of their
-- type that match, once each, in order of registration, on the fast path and on the sorting one.
pub collect_entries-keep :
    {r : Registry} {log : Log}
    → Represents r log
    → (t : HookType) (from to : String)
    → collect_entries t r from to ≡ keep (fires t from to) (entries log)
unfolding collect_entries
collect_entries-keep {r} {log} v t from to =
    merge_entries-keep t from to _ _ (entries log) (v.concrete t _) (v.wildcard t) v.by_seq
