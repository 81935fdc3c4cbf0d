-- ===== src/Transitions/Names/Valid.antt =====
-- What validateStateName (transitions/config.go) accepts.
use Prim.Native.Char.{Char, code}
use go_fsm.Base.{
  ℕ, suc, ◌≤◌, ◌≡◌, ◌≢◌, ◌↔◌, ◌∙◌, refl, sym, ap, inl, inr, String, Bool, true, not, ◌&&◌, none,
  beq→eq, string_eq, Bool-cases, arith,
}
use go_fsm.Transitions.Names.{
  is_space, is_empty, trim_left, trim_right, trim_space, validate_state_name,
}

-- The first character, and the last, is no white space.
abbrev starts_plain : String → Bool
starts_plain String.[] = true
starts_plain (String.◌∷◌ c s) = not (is_space (code c))

abbrev ends_plain : String → Bool
ends_plain String.[] = true
ends_plain (String.◌∷◌ c String.[]) = not (is_space (code c))
ends_plain (String.◌∷◌ c (String.◌∷◌ d s)) = ends_plain (String.◌∷◌ d s)

-- A state name, described without trimming.
pub record IsStateName (s : String) : Type 0 where
  pub nonempty : s ≢ ""
  pub starts : starts_plain s ≡ true
  pub ends : ends_plain s ≡ true
  pub not_reserved : s ≢ "*"

abbrev size : String → ℕ
size String.[] = 0
size (String.◌∷◌ c s) = suc (size s)

trim_left-size : (s : String) → size (trim_left s) ≤ size s
unfolding trim_left
trim_left-size String.[] = omega arith
trim_left-size (String.◌∷◌ c s) = ground (arith, trim_left-size s)

trim_right-size : (s : String) → size (trim_right s) ≤ size s
unfolding trim_right
trim_right-size String.[] = omega arith
trim_right-size (String.◌∷◌ c s) = ground (arith, trim_right-size s)

trim_left_plain : (s : String) → starts_plain s ≡ true → trim_left s ≡ s
unfolding trim_left
trim_left_plain String.[] h = refl
trim_left_plain (String.◌∷◌ c s) h = ground arith

trim_right_plain : (s : String) → ends_plain s ≡ true → trim_right s ≡ s
unfolding trim_right
trim_right_plain String.[] h = refl
trim_right_plain (String.◌∷◌ c String.[]) h = ground arith
trim_right_plain (String.◌∷◌ c (String.◌∷◌ d s)) h =
    rw (trim_right_plain (String.◌∷◌ d s) h, trim_right) (ground arith)

-- The converses.
abbrev rest : String → String
rest String.[] = ""
rest (String.◌∷◌ c s) = s

rest_of_trim_right :
    (c : Char) (s : String) → trim_right (String.◌∷◌ c s) ≡ String.◌∷◌ c s → trim_right s ≡ s
unfolding trim_right
rest_of_trim_right c s h = elim (Bool-cases (is_empty (trim_right s) && is_space (code c))) [
  | inl e ↦ absurd (omega (arith, ap size (rw e at h)))
  | inr e ↦ ap rest (rw e at h)
]

ends_of_trim_right : (s : String) → trim_right s ≡ s → ends_plain s ≡ true
unfolding trim_right
ends_of_trim_right String.[] h = refl
ends_of_trim_right (String.◌∷◌ c String.[]) h = elim (Bool-cases (is_space (code c))) [
  | inl space ↦ absurd (omega (arith, ap size (rw space at h)))
  | inr plain ↦ rw plain
]
ends_of_trim_right (String.◌∷◌ c (String.◌∷◌ d s)) h =
    ends_of_trim_right (String.◌∷◌ d s) (rest_of_trim_right c (String.◌∷◌ d s) h)

starts_of_trim_space : (s : String) → trim_space s ≡ s → starts_plain s ≡ true
unfolding trim_space trim_left
starts_of_trim_space String.[] h = refl
starts_of_trim_space (String.◌∷◌ c s) h = elim (Bool-cases (is_space (code c))) [
  | inl space ↦ absurd (ground (arith, ap size h, trim_right-size (trim_left s), trim_left-size s))
  | inr plain ↦ rw plain
]

trim_space_iff :
    (s : String) → (trim_space s ≡ s) ↔ ((starts_plain s ≡ true) × (ends_plain s ≡ true))
unfolding trim_space
trim_space_iff s = (
  λ h.
      let starts = starts_of_trim_space s h in
      (starts, ends_of_trim_right s (sym (ap trim_right (trim_left_plain s starts)) ∙ h)),
  λ h. ap trim_right (trim_left_plain s h.0) ∙ trim_right_plain s h.1,
)

-- validateStateName accepts exactly the names that are not empty, begin and end with no white
-- space, and are not the wildcard.
pub validate_state_name-none_iff : (s : String) → (validate_state_name s ≡ none) ↔ IsStateName s
unfolding validate_state_name
validate_state_name-none_iff s = (forward, backward)
  where
    untrimmed : validate_state_name s ≡ none → (starts_plain s ≡ true) × (ends_plain s ≡ true)
    untrimmed h = (trim_space_iff s).0 (beq→eq _ _ (ground arith))

    forward : validate_state_name s ≡ none → IsStateName s
    forward h = record {
      nonempty = λ q. ground (arith, (string_eq.equals_iff s "").1 q);
      starts = (untrimmed h).0;
      ends = (untrimmed h).1;
      not_reserved = λ q. ground (arith, (string_eq.equals_iff s "*").1 q);
    }

    backward : IsStateName s → validate_state_name s ≡ none
    backward v = ground (
      arith,
      (trim_space_iff s).1 (v.starts, v.ends),
      string_eq.equals_iff s "",
      string_eq.equals_iff s "*",
      string_eq.equals_iff (trim_space s) "",
      string_eq.equals_iff (trim_space s) s,
    )
