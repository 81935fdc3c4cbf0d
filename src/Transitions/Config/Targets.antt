-- ===== src/Transitions/Config/Targets.antt =====
-- What the inner loop of buildIndex (transitions/config.go) compute.
use mathlib.Core.List.{append-nil, append_assoc}
use go_fsm.Base.{
  ◌≡◌, ◌∙◌, refl, inl, inr, String, Bool, true, not, ◌&&◌, ◌||◌, Option, none, some, List, [], ◌∷◌,
  ◌++◌, ◌==◌, string_eq, Option-cases, arith,
}
use go_fsm.Base.Lists.{contains, contains-set_add}
use go_fsm.Base.Maps.{insert, has_key, is_some, get_or, get_or-insert, lookup-insert}
use go_fsm.Transitions.Names.{NameError, validate_state_name}
use go_fsm.Transitions.Config.{
  StateMap, Build, ConfigIssue, invalid_source, invalid_destination, add_target, add_targets,
}

abbrev pub is_valid : String → Bool
is_valid s = not (is_some (validate_state_name s))

-- Whether a list of targets has `x`, and `x` is a valid name.
abbrev pub listed : List String → String → Bool
listed tos x = is_valid x && contains tos x

-- The targets that the index has for a source.
abbrev pub targets : Build → String → List String
targets b j = get_or [] j b.index

pub has_key-insert :
    (k j : String) (v : List String) (m : StateMap)
    → has_key j (insert k v m) ≡ (k == j || has_key j m)
has_key-insert k j v m = rw lookup-insert (ground arith)

-- The errors that one target, a list of them, one entry and a list of those leave.
abbrev pub target_issue : Option NameError → List ConfigIssue
target_issue none = []
target_issue (some e) = invalid_destination e ∷ []

abbrev pub target_issues : List String → List ConfigIssue
target_issues [] = []
target_issues (to ∷ tos) = target_issue (validate_state_name to) ++ target_issues tos

abbrev pub source_issues_of : Option NameError → List String → List ConfigIssue
source_issues_of none tos = target_issues tos
source_issues_of (some e) tos = invalid_source e ∷ []

abbrev pub source_issues : StateMap → List ConfigIssue
source_issues [] = []
source_issues ((from, tos) ∷ rest) =
    source_issues_of (validate_state_name from) tos ++ source_issues rest

module _ (config : StateMap) (from : String) where
  add_target-targets :
      (b : Build) (to j x : String)
      → contains (targets (add_target config from b to) j) x
        ≡ (contains (targets b j) x || (from == j && (is_valid x && to == x)))
  unfolding add_target
  add_target-targets b to j x = elim (Option-cases (validate_state_name to)) [
    | inl e ↦
        rw (e, add_target)
          (rw get_or-insert (
            ground (
              arith,
              contains-set_add (targets b from) to x,
              string_eq.equals_iff from j,
              string_eq.equals_iff to x,
            )))
    | inr (i, e) ↦ rw (e, add_target) (ground (arith, string_eq.equals_iff to x))
  ]

  add_target-has_key :
      (b : Build) (to j : String)
      → has_key from b.index ≡ true
      → has_key j (add_target config from b to).index ≡ has_key j b.index
  unfolding add_target
  add_target-has_key b to j h = elim (Option-cases (validate_state_name to)) [
    | inl e ↦ rw (e, add_target) (rw has_key-insert (ground (arith, string_eq.equals_iff from j)))
    | inr (i, e) ↦ rw (e, add_target)
  ]

  add_target-undefined :
      (b : Build) (to x : String)
      → contains (add_target config from b to).undefined x
        ≡ (contains b.undefined x || (is_valid x && (to == x && not (has_key x config))))
  unfolding add_target
  add_target-undefined b to x = elim (Option-cases (validate_state_name to)) [
    | inl e ↦
        rw (e, add_target)
          (ground (arith, contains-set_add b.undefined to x, string_eq.equals_iff to x))
    | inr (i, e) ↦ rw (e, add_target) (ground (arith, string_eq.equals_iff to x))
  ]

  add_target-errs :
      (b : Build) (to : String)
      → (add_target config from b to).errs ≡ b.errs ++ target_issue (validate_state_name to)
  unfolding add_target
  add_target-errs b to = elim (Option-cases (validate_state_name to)) [
    | inl e ↦ rw (e, add_target) (ground (arith, append-nil b.errs))
    | inr (i, e) ↦ rw (e, add_target)
  ]

  pub add_targets-has_key :
      (b : Build) (tos : List String) (j : String)
      → has_key from b.index ≡ true
      → has_key j (add_targets config from b tos).index ≡ has_key j b.index
  unfolding add_targets
  add_targets-has_key b [] j h = refl
  add_targets-has_key b (to ∷ tos) j h =
      add_targets-has_key (add_target config from b to) tos j (add_target-has_key b to from h ∙ h)
      ∙ add_target-has_key b to j h

  pub add_targets-targets :
      (b : Build) (tos : List String) (j x : String)
      → contains (targets (add_targets config from b tos) j) x
        ≡ (contains (targets b j) x || (from == j && listed tos x))
  unfolding add_targets contains
  add_targets-targets b [] j x = ground arith
  add_targets-targets b (to ∷ tos) j x = ground (
    arith,
    add_targets-targets (add_target config from b to) tos j x,
    add_target-targets b to j x,
  )

  pub add_targets-undefined :
      (b : Build) (tos : List String) (x : String)
      → contains (add_targets config from b tos).undefined x
        ≡ (contains b.undefined x || (listed tos x && not (has_key x config)))
  unfolding add_targets contains
  add_targets-undefined b [] x = ground arith
  add_targets-undefined b (to ∷ tos) x = ground (
    arith,
    add_targets-undefined (add_target config from b to) tos x,
    add_target-undefined b to x,
  )

  pub add_targets-errs :
      (b : Build) (tos : List String)
      → (add_targets config from b tos).errs ≡ b.errs ++ target_issues tos
  unfolding add_targets
  add_targets-errs b [] = rw append-nil
  add_targets-errs b (to ∷ tos) =
      add_targets-errs (add_target config from b to) tos
      ∙ rw (add_target-errs b to) (append_assoc b.errs _ _)
