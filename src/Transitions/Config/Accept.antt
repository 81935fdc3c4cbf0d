-- ===== src/Transitions/Config/Accept.antt =====
-- Which configurations New (transitions/config.go) accepts, and what its index then answers.
use go_fsm.Base.{
  ◌≡◌, ◌≢◌, ◌↔◌, ◌∙◌, refl, sym, ap, inl, inr, String, true, false, not, ◌&&◌, List, [], ◌∷◌,
  string_eq, Option-cases, Bool-cases, List-cases, arith, ok,
}
use go_fsm.Base.Lists.{
  All, All-at, All-map, All_of_contains, nil_of_contains, nil_of_append, contains,
}
use go_fsm.Base.Maps.{has_key}
use go_fsm.Transitions.Names.{validate_state_name}
use go_fsm.Transitions.Names.Valid.{IsStateName, validate_state_name-none_iff}
use go_fsm.Transitions.Config.{
  StateMap, Config, ConfigIssue, Build, start, add_sources, report_undefined, finish, new_config,
}
use go_fsm.Transitions.Config.Targets.{
  is_valid, source_issues, source_issues_of, target_issue, target_issues,
}
use go_fsm.Transitions.Config.Sources.{mentions, add_sources-errs, add_sources-undefined}

-- An entry of a configuration: names, and targets that are sources.
abbrev pub IsEntry : StateMap → String × List String → Type 0
IsEntry config entry =
    IsStateName entry.0 × All (λ to. IsStateName to × (has_key to config ≡ true)) entry.1

pub record IsWellFormed (config : StateMap) : Type 0 where
  pub nonempty : config ≢ []
  pub entries : All (IsEntry config) config

-- An entry with valid names.
abbrev HasNames : String × List String → Type 0
HasNames entry = IsStateName entry.0 × All IsStateName entry.1

pub valid_iff : (s : String) → (is_valid s ≡ true) ↔ IsStateName s
valid_iff s = (
  λ h. (validate_state_name-none_iff s).0 (ground arith),
  λ v. rw ((validate_state_name-none_iff s).1 v),
)

names_of_target_issues : (tos : List String) → target_issues tos ≡ [] → All IsStateName tos
names_of_target_issues [] h = tt
names_of_target_issues (to ∷ tos) h =
    let parts = nil_of_append (target_issue (validate_state_name to)) (target_issues tos) h in
    ((validate_state_name-none_iff to).0 (ground arith), names_of_target_issues tos parts.1)

target_issues_of_names : (tos : List String) → All IsStateName tos → target_issues tos ≡ []
target_issues_of_names [] h = refl
target_issues_of_names (to ∷ tos) h =
    rw ((validate_state_name-none_iff to).1 h.0) (target_issues_of_names tos h.1)

names_of_source_issues_of :
    (from : String) (tos : List String)
    → source_issues_of (validate_state_name from) tos ≡ []
    → HasNames (from, tos)
names_of_source_issues_of from tos h = elim (Option-cases (validate_state_name from)) [
  | inl e ↦ ((validate_state_name-none_iff from).0 e, names_of_target_issues tos (rw e at h))
  | inr (i, e) ↦ absurd (cc (rw e at h))
]

names_of_source_issues : (m : StateMap) → source_issues m ≡ [] → All HasNames m
names_of_source_issues [] h = tt
names_of_source_issues ((from, tos) ∷ rest) h =
    let parts = nil_of_append (source_issues_of (validate_state_name from) tos) _ h in
    (names_of_source_issues_of from tos parts.0, names_of_source_issues rest parts.1)

source_issues_of_names : (m : StateMap) → All HasNames m → source_issues m ≡ []
source_issues_of_names [] h = refl
source_issues_of_names ((from, tos) ∷ rest) h =
    rw ((validate_state_name-none_iff from).1 h.0.0)
      (rw (target_issues_of_names tos h.0.1) (source_issues_of_names rest h.1))

-- With valid names, no target is undefined exactly when each is a source.
entries_of_mentions :
    (config m : StateMap)
    → All HasNames m
    → ((x : String) → (mentions m x && not (has_key x config)) ≡ false)
    → All (IsEntry config) m
entries_of_mentions config [] v h = tt
entries_of_mentions config ((from, tos) ∷ rest) v h = (
  (
    v.0.0,
    All_of_contains _ tos λ x k.
        let name = All-at IsStateName tos x v.0.1 k in
        (name, ground (arith, h x, (valid_iff x).1 name, (valid_iff from).1 v.0.0)),
  ),
  entries_of_mentions config rest v.1 (λ x. ground (arith, h x)),
)

mentions_of_entries :
    (config m : StateMap)
    → All (IsEntry config) m
    → (x : String) → (mentions m x && not (has_key x config)) ≡ false
mentions_of_entries config [] v x = refl
mentions_of_entries config ((from, tos) ∷ rest) v x = elim (Bool-cases (contains tos x)) [
  | inl k ↦ ground (arith, (All-at _ tos x v.0.1 k).1)
  | inr k ↦ ground (arith, mentions_of_entries config rest v.1 x)
]

names_of_entries : (config m : StateMap) → All (IsEntry config) m → All HasNames m
names_of_entries config m = All-map (λ p v. (v.0, All-map (λ to w. w.0) p.1 v.1)) m

nil_of_report : (b : Build) → report_undefined b ≡ [] → (b.undefined ≡ []) × (b.errs ≡ [])
unfolding report_undefined
nil_of_report b h = elim (List-cases b.undefined) [
  | inl e ↦ (e, rw (e, report_undefined) at h)
  | inr (x, xs, e) ↦ absurd (cc ((nil_of_append b.errs _ (rw (e, report_undefined) at h)).1))
]

report_of_nil : (b : Build) → b.undefined ≡ [] → b.errs ≡ [] → report_undefined b ≡ []
unfolding report_undefined
report_of_nil b u e = rw (u, report_undefined) e

-- What a configuration without errors leaves in the loops' variables.
abbrev pub built : StateMap → Build
built config = add_sources config start config

well_formed_of_report :
    (config : StateMap) → report_undefined (built config) ≡ [] → All (IsEntry config) config
unfolding contains
well_formed_of_report config h =
    let nils = nil_of_report (built config) h in
    entries_of_mentions config config
      (names_of_source_issues config (sym (add_sources-errs config start config) ∙ nils.1))
      λ x. sym (add_sources-undefined config start config x) ∙ ap (λ u. contains u x) nils.0

report_of_well_formed :
    (config : StateMap) → All (IsEntry config) config → report_undefined (built config) ≡ []
report_of_well_formed config v =
    report_of_nil (built config)
      (nil_of_contains _ (λ x.
        add_sources-undefined config start config x
        ∙ unfold contains in mentions_of_entries config config v x))
      (add_sources-errs config start config
        ∙ source_issues_of_names config (names_of_entries config config v))

finish_ok :
    (m index : StateMap) (es : List ConfigIssue) {c : Config}
    → finish m (index, es) ≡ ok c
    → (es ≡ []) × (c ≡ record { config = m; index = index })
unfolding finish
finish_ok m index [] h = ground arith
finish_ok m index (e ∷ es) h = absurd (cc)

-- An accepted configuration has no errors, and is kept beside the index built from it.
new_config_ok :
    (config : StateMap) {c : Config}
    → new_config config ≡ ok c
    → (config ≢ [])
      × (report_undefined (built config) ≡ [])
      × (c ≡ record { config = config; index = (built config).index })
unfolding new_config
new_config_ok [] h = absurd (cc)
new_config_ok (entry ∷ rest) h = let parts = finish_ok _ _ _ h in (λ q. cc, parts.0, parts.1)

new_config_of_report :
    (config : StateMap)
    → config ≢ []
    → report_undefined (built config) ≡ []
    → new_config config ≡ ok (record { config = config; index = (built config).index })
unfolding new_config
new_config_of_report [] n h = absurd (n refl)
new_config_of_report (entry ∷ rest) n h = rw (h, finish)

-- New accepts a configuration exactly when it has an entry, each source is a state name, and each
-- target is a state name and one of the sources.
pub new_config-ok_iff :
    (config : StateMap) → ((c : Config) × (new_config config ≡ ok c)) ↔ IsWellFormed config
new_config-ok_iff config = (
  λ found.
      let parts = new_config_ok config found.1 in
      record { nonempty = parts.0; entries = well_formed_of_report config parts.1 },
  λ v. (_, new_config_of_report config v.nonempty (report_of_well_formed config v.entries)),
)

module _ (config : StateMap) {c : Config} (accepted : new_config config ≡ ok c) where
  pub entries_of_accepted : All (IsEntry config) config
  entries_of_accepted = ((new_config-ok_iff config).0 (c, accepted)).entries

  pub config_of_accepted : c.config ≡ config
  config_of_accepted = ap (λ (t : Config). t.config) (new_config_ok config accepted).2

  pub index_of_accepted : c.index ≡ (built config).index
  index_of_accepted = ap (λ (t : Config). t.index) (new_config_ok config accepted).2
