-- ===== src/Hooks/Registry/Erase.antt =====
-- The list of hooks without one of them, and removeFrom (hooks/registry.go) on its parts.
use go_fsm.Base.{
  ◌≡◌, ◌∙◌, refl, sym, ap, subst, inl, inr, String, Bool, true, false, not, some, List, [], ◌∷◌,
  ◌==◌, beq_cases, beq_refl, nat_eq, string_eq, arith, Bool-cases,
}
use go_fsm.Base.Lists.{All, All-keep, All-map, contains, keep, keep_all, IsUnique}
use go_fsm.Base.Maps.{lookup, erase, keys}
use go_fsm.Base.Sort.{IsAscending, Before}
use go_fsm.Hooks.Entry.{HookEntry, key_eq}
use go_fsm.Hooks.Registry.Removal.{holds, remove_from}
use go_fsm.Hooks.Registry.Represents.{Log, entries, ref_leb}

abbrev pub others : HookEntry → HookEntry → Bool
others e x = not (x.ref == e.ref)

keep_absent : (e : HookEntry) (xs : List HookEntry) → holds e xs ≡ false → keep (others e) xs ≡ xs
keep_absent e [] h = refl
keep_absent e (x ∷ xs) h = ground (arith, keep_absent e xs)

pub remove_from-keep : (e : HookEntry) (xs : List HookEntry) → remove_from e xs ≡ keep (others e) xs
unfolding remove_from
remove_from-keep e xs = ground (arith, keep_absent e xs)

pub erase_absent :
    (name : String) (log : Log) → contains (keys log) name ≡ false → erase name log ≡ log
unfolding erase contains
erase_absent name [] h = refl
erase_absent name ((n, e) ∷ log) h = ground (arith, erase_absent name log)

-- What holds of every entry holds of one that is found.
All-lookup {κ} :
    (P : HookEntry → Type κ) (name : String) (log : Log) {e : HookEntry}
    → All P (entries log)
    → lookup name log ≡ some e
    → P e
unfolding lookup
All-lookup P name [] h q = absurd (cc)
All-lookup P name ((n, x) ∷ log) {e} h q = elim (beq_cases n name) [
  | inl (_, s) ↦ let x≡e : x ≡ e = cc (rw s at q) in subst P x≡e h.0
  | inr s ↦ All-lookup P name log h.1 (rw s at q)
]

keep_rest :
    (x : HookEntry) (xs : List HookEntry)
    → All (Before ref_leb x) xs
    → keep (others x) (x ∷ xs) ≡ xs
keep_rest x xs h = rw (beq_refl x.ref) (keep_all (others x) xs (All-map (λ y b. ground arith) xs h))

-- The found entry is the one that goes: by its address, and from no other type's lists.
pub entries-erase :
    (name : String) (log : Log) {e : HookEntry}
    → IsUnique (keys log)
    → IsAscending ref_leb (entries log)
    → lookup name log ≡ some e
    → entries (erase name log) ≡ keep (others e) (entries log)
unfolding erase lookup
entries-erase name [] u s q = absurd (cc)
entries-erase name ((n, x) ∷ log) {e} u s q = elim (beq_cases n name) [
  | inl (p, h) ↦
      let x≡e : x ≡ e = cc (rw h at q) in
      rw h (
        ap entries (erase_absent name log (subst (λ m. contains (keys log) m ≡ false) p u.0))
        ∙ sym (
            subst (λ y. keep (others y) (x ∷ entries log) ≡ entries log) x≡e
              (keep_rest x (entries log) s.0)))
  | inr h ↦
      let found : lookup name log ≡ some e = rw h at q in
      let apart : others e x ≡ true =
        All-lookup (λ y. others y x ≡ true) name log
          (All-map (λ y b. ground arith) (entries log) s.0) found in
      rw (h, apart) (ap (λ l. x ∷ l) (entries-erase name log u.1 s.1 found))
]

pub keep-erase :
    (p : HookEntry → Bool) (name : String) (log : Log) {e : HookEntry}
    → IsUnique (keys log)
    → lookup name log ≡ some e
    → p e ≡ false
    → keep p (entries (erase name log)) ≡ keep p (entries log)
unfolding erase lookup
keep-erase p name [] u q h = refl
keep-erase p name ((n, x) ∷ log) {e} u q h = elim (beq_cases n name) [
  | inl (s, k) ↦
      let x≡e : x ≡ e = cc (rw k at q) in
      rw k (
        rw x≡e (
          rw h (
            ap (λ m. keep p (entries m))
              (erase_absent name log (subst (λ m. contains (keys log) m ≡ false) s u.0)))))
  | inr k ↦
      let found : lookup name log ≡ some e = rw k at q in
      rw k (ground (arith, keep-erase p name log u.1 found h))
]

pub IsAscending-keep :
    (le : HookEntry → HookEntry → Bool) (p : HookEntry → Bool) (xs : List HookEntry)
    → IsAscending le xs
    → IsAscending le (keep p xs)
IsAscending-keep le p [] s = tt
IsAscending-keep le p (x ∷ xs) s = elim (Bool-cases (p x)) [
  | inl q ↦ rw q (All-keep (Before le x) p xs s.0, IsAscending-keep le p xs s.1)
  | inr q ↦ rw q (IsAscending-keep le p xs s.1)
]
