-- ===== src/Hooks/Registry/Keys.antt =====
-- The index keys of a concrete hook (hooks/registry.go, buildConcreteIndexKeys), and the index
-- after an entry is appended under them.
use go_fsm.Base.{
  ◌≡◌, ◌∙◌, refl, inl, inr, String, true, false, ◌&&◌, ◌||◌, Option, List, [], ◌∷◌, ◌++◌,
  if◌then◌else◌, ◌==◌, beq_refl, string_eq, Bool-cases, arith, ok,
}
use go_fsm.Base.Lists.{
  contains, contains-append, IsUnique, set_add, set_add-IsUnique, contains-set_add,
}
use go_fsm.Base.Maps.{Map, insert, get_or, get_or-insert}
use go_fsm.Hooks.Entry.{HookEntry, TransitionKey, key_eq}
use go_fsm.Hooks.Registry.{
  StateTable, Registry, is_unknown, unique_from, validate_unique_states, keys_from, product,
  bind_ok, build_concrete_index_keys, index_under,
}

-- What the loop returns: no state twice, and no state but those seen and those given.
unique_from_lem :
    (table : Option StateTable) (unique patterns : List String) {out : List String}
    → unique_from table unique patterns ≡ ok out
    → IsUnique unique
    → IsUnique out × ((x : String) → contains out x ≡ (contains unique x || contains patterns x))
unfolding unique_from contains
unique_from_lem table unique [] {out} h u =
    let e : unique ≡ out = ground arith in rw (← e) (u, λ x. ground arith)
unique_from_lem table unique (pattern ∷ rest) h u = elim (Bool-cases (is_unknown table pattern)) [
  | inl e ↦ absurd (cc (rw e at h))
  | inr e ↦
      let (u', c) =
        unique_from_lem table (set_add unique pattern) rest (rw e at h)
          (set_add-IsUnique unique pattern u) in
      (u', λ x. c x ∙ ground (arith, contains-set_add unique pattern x))
]

validate_unique_states_ok :
    (r : Registry) (patterns : List String) {out : List String}
    → validate_unique_states r patterns ≡ ok out
    → IsUnique out × ((x : String) → contains out x ≡ contains patterns x)
unfolding validate_unique_states contains
validate_unique_states_ok r patterns h = unique_from_lem r.transitions [] patterns h tt

contains-keys_from :
    (from : String) (tos : List String) (k : TransitionKey)
    → contains (keys_from from tos) k ≡ (from == k.from && contains tos k.to)
unfolding keys_from contains
contains-keys_from from [] k = ground arith
contains-keys_from from (to ∷ tos) k = ground (arith, contains-keys_from from tos k)

-- A key is in the product exactly when its parts are in the lists.
pub contains-product :
    (froms tos : List String) (k : TransitionKey)
    → contains (product froms tos) k ≡ (contains froms k.from && contains tos k.to)
unfolding product contains
contains-product [] tos k = refl
contains-product (from ∷ froms) tos k =
    contains-append (keys_from from tos) (product froms tos) k
    ∙ ground (arith, contains-product froms tos k, contains-keys_from from tos k)

keys_from-IsUnique :
    (from : String) (tos : List String) → IsUnique tos → IsUnique (keys_from from tos)
unfolding keys_from
keys_from-IsUnique from [] u = tt
keys_from-IsUnique from (to ∷ tos) u = (
  contains-keys_from from tos (record { from = from; to = to }) ∙ ground (arith, u.0),
  keys_from-IsUnique from tos u.1,
)

append-IsUnique :
    (js ks : List TransitionKey)
    → IsUnique js
    → IsUnique ks
    → ((k : TransitionKey) → contains js k ≡ true → contains ks k ≡ false)
    → IsUnique (js ++ ks)
unfolding contains
append-IsUnique [] ks u v apart = v
append-IsUnique (j ∷ js) ks u v apart = (
  contains-append js ks j ∙ ground (arith, u.0, apart j, beq_refl j),
  append-IsUnique js ks u.1 v (λ k h. apart k (ground arith)),
)

pub product-IsUnique :
    (froms tos : List String) → IsUnique froms → IsUnique tos → IsUnique (product froms tos)
unfolding product
product-IsUnique [] tos u v = tt
product-IsUnique (from ∷ froms) tos u v =
    append-IsUnique (keys_from from tos) (product froms tos) (keys_from-IsUnique from tos v)
      (product-IsUnique froms tos u.1 v)
      λ k h. ground (
        arith,
        contains-product froms tos k,
        contains-keys_from from tos k,
        string_eq.equals_iff from k.from,
        u.0,
      )

-- Appending an entry under distinct keys appends it once to the slice of each of them.
pub get_or-index_under :
    (index : Map TransitionKey (List HookEntry)) (keys : List TransitionKey) (entry : HookEntry)
    (k : TransitionKey)
    → IsUnique keys
    → get_or [] k (index_under index keys entry)
      ≡ (if contains keys k then get_or [] k index ++ entry ∷ [] else get_or [] k index)
unfolding index_under contains
get_or-index_under index [] entry k u = refl
get_or-index_under index (key ∷ keys) entry k u =
    get_or-index_under (insert key (get_or [] key index ++ entry ∷ []) index) keys entry k u.1
    ∙ rw get_or-insert (ground (arith, u.0, key_eq.equals_iff key k))

-- The keys of an entry, when they can be built: distinct, and those that its lists name.
pub build_concrete_index_keys_ok :
    (r : Registry) (froms tos : List String) {keys : List TransitionKey}
    → build_concrete_index_keys r froms tos ≡ ok keys
    → IsUnique keys
      × ((k : TransitionKey) → contains keys k ≡ (contains froms k.from && contains tos k.to))
unfolding build_concrete_index_keys
build_concrete_index_keys_ok r froms tos {keys} h =
    let (fs, ef, h') = bind_ok (validate_unique_states r froms) _ h in
    let (ts, et, h'') = bind_ok (validate_unique_states r tos) _ h' in
    let (uf, cf) = validate_unique_states_ok r froms ef in
    let (ut, ct) = validate_unique_states_ok r tos et in
    let e : product fs ts ≡ keys = ground arith in
    rw (← e) (
      product-IsUnique fs ts uf ut,
      λ k. contains-product fs ts k ∙ ground (arith, cf k.from, ct k.to),
    )
