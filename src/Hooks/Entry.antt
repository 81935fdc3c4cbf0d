-- ===== src/Hooks/Entry.antt =====
-- hooks/registry.go and hooks/config.go: hooks, transition keys and matching.
-- A guard or an action is a Go function value of the client's; it is modelled by a number that
-- names it, `none` for a nil function.
use go_fsm.Base.{
  ℕ, ◌≡◌, ◌⊎◌, inl, inr, ◌↔◌, refl, String, Bool, true, false, leb, ◌&&◌, ◌||◌, Option, List, Eq,
  ◌==◌, string_eq, arith,
}
use go_fsm.Base.Lists.{contains}

-- WildcardStatePattern
abbrev pub wildcard_state_pattern : String
wildcard_state_pattern = "*"

-- transitionKey
pub record TransitionKey : Type 0 where
  pub from : String
  pub to : String

pub key_beq_iff : (j k : TransitionKey) → ((j.from == k.from && j.to == k.to) ≡ true) ↔ (j ≡ k)
key_beq_iff j k = ground (arith, string_eq.equals_iff j.from k.from, string_eq.equals_iff j.to k.to)

instance abbrev pub key_eq : Eq TransitionKey
key_eq = record { equals = λ j k. j.from == k.from && j.to == k.to; equals_iff = key_beq_iff }

-- HookType
pub data HookType : Type 0 where
  pre : HookType
  post : HookType

abbrev pub is_type : HookType → HookType → Bool
is_type pre pre = true
is_type post post = true
is_type _ _ = false

pub HookType-cases : (t : HookType) → (t ≡ pre) ⊎ (t ≡ post)
HookType-cases pre = inl refl
HookType-cases post = inr refl

-- hookEntry. `ref` is the address of the entry, by which pointers are compared.
pub record HookEntry : Type 0 where
  pub ref : ℕ
  pub guard : Option ℕ
  pub action : Option ℕ
  pub from_states : List String
  pub to_states : List String
  pub hook_type : HookType
  pub registration_seq : ℕ
  pub wildcard_present : Bool

-- hasWildcardPattern
unfoldable pub has_wildcard_pattern : HookEntry → Bool
has_wildcard_pattern e =
    contains e.from_states wildcard_state_pattern || contains e.to_states wildcard_state_pattern

-- matches
unfoldable pub matches : String → String → HookEntry → Bool
matches from to e =
    (contains e.from_states wildcard_state_pattern || contains e.from_states from)
    && (contains e.to_states wildcard_state_pattern || contains e.to_states to)

-- `cmp.Compare(a.registrationSeq, b.registrationSeq)`. The numbers of the sorted entries differ,
-- so that every correct sort gives the same list.
abbrev pub seq_leb : HookEntry → HookEntry → Bool
seq_leb a b = leb a.registration_seq b.registration_seq
