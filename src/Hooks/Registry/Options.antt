-- ===== src/Hooks/Registry/Options.antt =====
-- hooks/options.go, and NewRegistry of hooks/registry.go with its options.
use go_fsm.Base.{ℕ, ◌≡◌, ◌↔◌, sym, ap, Option, none, some, List, [], ◌∷◌, Result, ok, err}
use go_fsm.Base.Lists.{All}
use go_fsm.Hooks.Registry.{StateTable, Registry, new_registry}

-- Option; `none` for a nil argument.
pub data RegistryOption : Type 0 where
  with_logger : Option ℕ → RegistryOption
  with_log_handler : Option ℕ → RegistryOption
  with_transitions : Option StateTable → RegistryOption

pub data RegistryOptionError : Type 0 where
  logger_nil : RegistryOptionError
  log_handler_nil : RegistryOptionError
  transitions_nil : RegistryOptionError

-- An option, applied to a registry without its logger.
unfoldable pub apply_registry_option :
    RegistryOption → Registry → Result RegistryOptionError Registry
apply_registry_option (with_logger none) r = err logger_nil
apply_registry_option (with_logger (some _)) r = ok r
apply_registry_option (with_log_handler none) r = err log_handler_nil
apply_registry_option (with_log_handler (some _)) r = ok r
apply_registry_option (with_transitions none) r = err transitions_nil
apply_registry_option (with_transitions (some table)) r = ok (record r { transitions = some table })

unfoldable pub apply_registry_options :
    List RegistryOption → Registry → Result RegistryOptionError Registry
unfolding apply_registry_option
apply_registry_options [] r = ok r
apply_registry_options (opt ∷ opts) r = elim (apply_registry_option opt r) [
  | err e ↦ err e
  | ok r' ↦ apply_registry_options opts r'
]

-- NewRegistry
unfoldable pub new_registry_with : List RegistryOption → Result RegistryOptionError Registry
unfolding apply_registry_options
new_registry_with opts = apply_registry_options opts (new_registry none)

-- An option with the argument that it needs.
abbrev pub HasArgument : RegistryOption → Type 0
HasArgument (with_logger none) = ⊥
HasArgument (with_logger (some _)) = Unit
HasArgument (with_log_handler none) = ⊥
HasArgument (with_log_handler (some _)) = Unit
HasArgument (with_transitions none) = ⊥
HasArgument (with_transitions (some _)) = Unit

-- The state table that the last of the options sets.
abbrev pub table_of : List RegistryOption → Option StateTable → Option StateTable
table_of [] table = table
table_of (with_transitions given ∷ opts) table = table_of opts given
table_of (with_logger _ ∷ opts) table = table_of opts table
table_of (with_log_handler _ ∷ opts) table = table_of opts table

applied :
    (opts : List RegistryOption) (table : Option StateTable) (r : Registry)
    → (apply_registry_options opts (new_registry table) ≡ ok r)
      ↔ (All HasArgument opts × (r ≡ new_registry (table_of opts table)))
unfolding apply_registry_options apply_registry_option new_registry
applied [] table r = ((λ h. (tt, cc)), λ u. ap ok (sym u.1))
applied (with_logger none ∷ opts) table r = ((λ h. absurd (cc)), λ u. absurd u.0.0)
applied (with_logger (some l) ∷ opts) table r =
    let (from, back) = applied opts table r in
    ((λ h. ((tt, (from h).0), (from h).1)), λ u. back (u.0.1, u.1))
applied (with_log_handler none ∷ opts) table r = ((λ h. absurd (cc)), λ u. absurd u.0.0)
applied (with_log_handler (some l) ∷ opts) table r =
    let (from, back) = applied opts table r in
    ((λ h. ((tt, (from h).0), (from h).1)), λ u. back (u.0.1, u.1))
applied (with_transitions none ∷ opts) table r = ((λ h. absurd (cc)), λ u. absurd u.0.0)
applied (with_transitions (some t) ∷ opts) table r =
    let (from, back) = applied opts (some t) r in
    ((λ h. ((tt, (from h).0), (from h).1)), λ u. back (u.0.1, u.1))

-- NewRegistry returns a registry exactly when each option has its argument, and then the empty one
-- over the state table that the last option sets, if any.
pub new_registry_with-ok_iff :
    (opts : List RegistryOption) (r : Registry)
    → (new_registry_with opts ≡ ok r)
      ↔ (All HasArgument opts × (r ≡ new_registry (table_of opts none)))
unfolding new_registry_with
new_registry_with-ok_iff opts r = applied opts none r
