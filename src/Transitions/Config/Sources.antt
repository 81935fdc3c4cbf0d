-- ===== src/Transitions/Config/Sources.antt =====
-- What the outer loop of buildIndex (transitions/config.go) compute.
use mathlib.Core.List.{append-nil, append_assoc}
use go_fsm.Base.{
  ◌≡◌, ◌∙◌, sym, inl, inr, String, Bool, false, not, ◌&&◌, ◌||◌, List, [], ◌∷◌, ◌++◌, ◌==◌,
  beq_refl, beq_comm, string_eq, Option-cases, arith,
}
use go_fsm.Base.Lists.{All, contains, IsUnique}
use go_fsm.Base.Maps.{
  lookup, insert, has_key, get_or, get_or-insert, get_or_missing, keys, contains-keys,
}
use go_fsm.Transitions.Names.{validate_state_name}
use go_fsm.Transitions.Config.{StateMap, Build, add_source, add_sources}
use go_fsm.Transitions.Config.Targets.{
  is_valid, listed, targets, source_issues_of, source_issues, has_key-insert, add_targets-has_key,
  add_targets-targets, add_targets-undefined, add_targets-errs,
}

-- Whether an entry of the list has `j` for a valid source, and `x` among its valid targets.
abbrev pub mentions : StateMap → String → Bool
mentions [] x = false
mentions ((from, tos) ∷ rest) x = (is_valid from && listed tos x) || mentions rest x

module _ (config : StateMap) where
  add_source-has_key :
      (b : Build) (from : String) (tos : List String) (j : String)
      → has_key j (add_source config b from tos).index
        ≡ (has_key j b.index || (is_valid j && from == j))
  unfolding add_source
  add_source-has_key b from tos j = elim (Option-cases (validate_state_name from)) [
    | inl e ↦
        rw (e, add_source)
          (add_targets-has_key config from (record b { index = insert from [] b.index }) tos j
              (rw has_key-insert (rw (beq_refl from)))
            ∙ rw has_key-insert (ground (arith, string_eq.equals_iff from j)))
    | inr (i, e) ↦ rw (e, add_source) (ground (arith, string_eq.equals_iff from j))
  ]

  add_source-targets :
      (b : Build) (from : String) (tos : List String) (j x : String)
      → has_key from b.index ≡ false
      → contains (targets (add_source config b from tos) j) x
        ≡ (contains (targets b j) x || (is_valid j && (from == j && listed tos x)))
  unfolding add_source contains
  add_source-targets b from tos j x fresh = elim (Option-cases (validate_state_name from)) [
    | inl e ↦
        rw (e, add_source)
          (add_targets-targets config from (record b { index = insert from [] b.index }) tos j x
            ∙ rw get_or-insert
                (ground (arith, string_eq.equals_iff from j, get_or_missing [] from b.index fresh)))
    | inr (i, e) ↦ rw (e, add_source) (ground (arith, string_eq.equals_iff from j))
  ]

  add_source-undefined :
      (b : Build) (from : String) (tos : List String) (x : String)
      → contains (add_source config b from tos).undefined x
        ≡ (contains b.undefined x || ((is_valid from && listed tos x) && not (has_key x config)))
  unfolding add_source
  add_source-undefined b from tos x = elim (Option-cases (validate_state_name from)) [
    | inl e ↦
        rw (e, add_source)
          (add_targets-undefined config from (record b { index = insert from [] b.index }) tos x
            ∙ ground arith)
    | inr (i, e) ↦ rw (e, add_source) (ground arith)
  ]

  add_source-errs :
      (b : Build) (from : String) (tos : List String)
      → (add_source config b from tos).errs
        ≡ b.errs ++ source_issues_of (validate_state_name from) tos
  unfolding add_source
  add_source-errs b from tos = elim (Option-cases (validate_state_name from)) [
    | inl e ↦
        rw (e, add_source)
          (add_targets-errs config from (record b { index = insert from [] b.index }) tos)
    | inr (i, e) ↦ rw (e, add_source)
  ]

  pub add_sources-has_key :
      (b : Build) (m : StateMap) (j : String)
      → has_key j (add_sources config b m).index
        ≡ (has_key j b.index || (is_valid j && has_key j m))
  unfolding add_sources lookup
  add_sources-has_key b [] j = ground arith
  add_sources-has_key b ((from, tos) ∷ rest) j = ground (
    arith,
    add_sources-has_key (add_source config b from tos) rest j,
    add_source-has_key b from tos j,
  )

  pub add_sources-undefined :
      (b : Build) (m : StateMap) (x : String)
      → contains (add_sources config b m).undefined x
        ≡ (contains b.undefined x || (mentions m x && not (has_key x config)))
  unfolding add_sources
  add_sources-undefined b [] x = ground arith
  add_sources-undefined b ((from, tos) ∷ rest) x = ground (
    arith,
    add_sources-undefined (add_source config b from tos) rest x,
    add_source-undefined b from tos x,
  )

  pub add_sources-errs :
      (b : Build) (m : StateMap) → (add_sources config b m).errs ≡ b.errs ++ source_issues m
  unfolding add_sources
  add_sources-errs b [] = rw append-nil
  add_sources-errs b ((from, tos) ∷ rest) =
      add_sources-errs (add_source config b from tos) rest
      ∙ rw (add_source-errs b from tos) (append_assoc b.errs _ _)

  -- No source of the list is in the index yet.
  abbrev pub IsFresh : Build → StateMap → Type 0
  IsFresh b m = All (λ j. has_key j b.index ≡ false) (keys m)

  IsFresh-add_source :
      (b : Build) (from : String) (tos : List String) (js : List String)
      → contains js from ≡ false
      → All (λ j. has_key j b.index ≡ false) js
      → All (λ j. has_key j (add_source config b from tos).index ≡ false) js
  unfolding contains
  IsFresh-add_source b from tos [] n f = tt
  IsFresh-add_source b from tos (j ∷ js) n f = (
    add_source-has_key b from tos j ∙ ground (arith, beq_comm j from),
    IsFresh-add_source b from tos js (ground arith) f.1,
  )

  pub add_sources-targets :
      (b : Build) (m : StateMap) (j x : String)
      → IsUnique (keys m)
      → IsFresh b m
      → contains (targets (add_sources config b m) j) x
        ≡ (contains (targets b j) x || (is_valid j && listed (get_or [] j m) x))
  unfolding add_sources get_or lookup contains
  add_sources-targets b [] j x u f = ground arith
  add_sources-targets b ((from, tos) ∷ rest) j x u f = ground (
    arith,
    string_eq.equals_iff from j,
    add_sources-targets (add_source config b from tos) rest j x u.1
        (IsFresh-add_source b from tos (keys rest) u.0 f.1),
    add_source-targets b from tos j x f.0,
    get_or_missing {V = List String} [] from rest (sym (contains-keys rest from) ∙ u.0),
  )
