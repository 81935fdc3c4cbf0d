-- ===== src/Transitions/Names.antt =====
-- transitions/config.go, validateStateName, with `strings.TrimSpace` of Go's standard library.
pub mod Valid
use Prim.Native.Char.{Char, code}
use go_fsm.Base.{
  ℕ, ◌≡◌, ◌≢◌, refl, String, Bool, true, false, not, ◌&&◌, ◌||◌, Option, none, some, leb, nat_beq,
  if◌then◌else◌, ◌==◌, string_eq, arith,
}

-- The errors of validateStateName; each wraps ErrInvalidStateName.
pub data NameError : Type 0 where
  empty : NameError
  whitespace_only : String → NameError
  padded : String → NameError
  reserved : NameError

-- `unicode.IsSpace`, on a code point.
pub is_space : ℕ → Bool
is_space c =
    (leb 9 c && leb c 13)
    || nat_beq c 32
    || nat_beq c 0x85
    || nat_beq c 0xA0
    || nat_beq c 0x1680
    || (leb 0x2000 c && leb c 0x200A)
    || nat_beq c 0x2028
    || nat_beq c 0x2029
    || nat_beq c 0x202F
    || nat_beq c 0x205F
    || nat_beq c 0x3000

trim_left : String → String
trim_left String.[] = ""
trim_left (String.◌∷◌ c s) =
    let rest = trim_left s in if is_space (code c) then rest else String.◌∷◌ c s

is_empty : String → Bool
is_empty String.[] = true
is_empty (String.◌∷◌ c s) = false

trim_right : String → String
unfolding is_empty
trim_right String.[] = ""
trim_right (String.◌∷◌ c s) =
    let rest = trim_right s in if is_empty rest && is_space (code c) then "" else String.◌∷◌ c rest

-- `strings.TrimSpace`
trim_space : String → String
unfolding trim_left trim_right
trim_space s = trim_right (trim_left s)

-- validateStateName
unfoldable pub validate_state_name : String → Option NameError
unfolding trim_space is_space
validate_state_name s =
    if s == ""
    then some empty
    else if trim_space s == ""
    then some (whitespace_only s)
    else if not (trim_space s == s)
    then some (padded s)
    else if s == "*"
    then some reserved
    else none
