-- ===== src/Subscribe/Setup.antt =====
-- fsm.go, Subscribe: from its guards to the registration of the broadcast hook, which `sync.Once`
-- runs for the first call only.
use mathlib.Core.List.{append-nil}
use go_fsm.Base.{
  ℕ, String, Bool, true, false, not, ◌&&◌, ◌≡◌, ◌∙◌, ◌↔◌, refl, sym, ap, subst, inl, inr, Option,
  none, some, List, [], ◌∷◌, ◌++◌, ◌==◌, string_eq, nat_eq, arith,
}
use go_fsm.Base.Lists.{contains, keep, keep-append}
use go_fsm.Base.Maps.{has_key, is_some}
use go_fsm.Context.{Ctx}
use go_fsm.Hooks.Entry.{HookType, pre, post, wildcard_state_pattern, matches}
use go_fsm.Hooks.Registry.{Registry, HookError, HookConfig, register_hook}
use go_fsm.Hooks.Registry.Represents.{Represents, Log, entries, entries-append}
use go_fsm.Hooks.Registry.Registered.{register_hook-Represents, registered_entry}
use go_fsm.Hooks.Execute.{collect_entries}
use go_fsm.Hooks.Fifo.{fires, collect_entries-keep}
use go_fsm.Hooks.Contract.{RegistryCall, is_any, is_listed, accepts_if}
use go_fsm.Hooks.Contract
use go_fsm.Hooks.Contract.Accepts.{validate_entry-is_ok, register_hook-is_ok}
use go_fsm.Broadcast.Subscriptions.{Manager, new_manager}

-- The machine's callback executor, by what a type assertion to HookRegistrar finds.
pub data CallbackKind : Type 0 where
  no_callbacks : CallbackKind
  executor_only : CallbackKind
  registrar : CallbackKind

-- The machine's fields that Subscribe sets up. `hook_name` is what `fmt.Sprintf` makes of the
-- machine's address, `broadcast_hook` the manager's BroadcastHook as a function value, and
-- `state_chan_setup` the `sync.Once` with the error that its run leaves.
pub record Host : Type 0 where
  pub callbacks : CallbackKind
  pub hook_name : String
  pub broadcast_hook : ℕ
  pub state_chan_setup : Option (Option HookError)
  pub broadcast_manager : Option Manager

pub data SubscribeError : Type 0 where
  nil_context : SubscribeError
  callbacks_missing : SubscribeError
  registration_unsupported : SubscribeError
  setup_failed : HookError → SubscribeError

-- hooks.PostTransitionHookConfig of the broadcast hook.
abbrev pub broadcast_config : Host → HookConfig
broadcast_config h = record {
  name = h.hook_name;
  from = wildcard_state_pattern ∷ [];
  to = wildcard_state_pattern ∷ [];
  func = some h.broadcast_hook;
}

-- `fsm.stateChanSetup.Do(…)`
unfoldable pub set_up : Option (Option HookError) → Host → Registry → Host × Registry
set_up (some _) h r = (h, r)
set_up none h r =
    let (r', error) = register_hook post r (broadcast_config h) in
    (record h { state_chan_setup = some error; broadcast_manager = some new_manager }, r')

abbrev pub setup_error : Option (Option HookError) → Option SubscribeError
setup_error none = none
setup_error (some none) = none
setup_error (some (some e)) = some (setup_failed e)

unfoldable pub prepare_with :
    CallbackKind → Host → Registry → (Host × Registry) × Option SubscribeError
unfolding set_up
prepare_with no_callbacks h r = ((h, r), some callbacks_missing)
prepare_with executor_only h r = ((h, r), some registration_unsupported)
prepare_with registrar h r =
    let (h', r') = set_up h.state_chan_setup h r in ((h', r'), setup_error h'.state_chan_setup)

-- Subscribe, up to RLock. A context that is nil is `none`.
unfoldable pub prepare : Option Ctx → Host → Registry → (Host × Registry) × Option SubscribeError
unfolding prepare_with
prepare none h r = ((h, r), some nil_context)
prepare (some ctx) h r = prepare_with h.callbacks h r

module _ (ctx ctx' : Ctx) (calls : List RegistryCall) where
  -- A second call, after any calls on the registry, does as the first.
  IsRepeated : Host → Registry → Type 0
  IsRepeated h r =
      let ((h', r'), error) = prepare (some ctx) h r in
      let r'' = Contract.run r' calls in prepare (some ctx') h' r'' ≡ ((h', r''), error)

  repeated :
      (once : Option (Option HookError)) (h : Host) (r : Registry)
      → IsRepeated (record h { callbacks = registrar; state_chan_setup = once }) r
  unfolding prepare prepare_with set_up IsRepeated
  repeated none h r = refl
  repeated (some error) h r = refl

-- On a machine that has a registry, a second Subscribe, after any registrations, removals and
-- clears, leaves the machine and the registry as they are and returns, up to its lock, the error of
-- the first, or none where the first returned none.
pub prepare-prepare :
    (ctx ctx' : Ctx) (calls : List RegistryCall) (h : Host) (r : Registry)
    → h.callbacks ≡ registrar
    → (let ((h', r'), error) = prepare (some ctx) h r in
        let r'' = Contract.run r' calls in prepare (some ctx') h' r'' ≡ ((h', r''), error))
unfolding IsRepeated
prepare-prepare ctx ctx' calls h r k =
    subst (λ c. IsRepeated ctx ctx' calls (record h { callbacks = c }) r) (sym k)
      (repeated ctx ctx' calls h.state_chan_setup h r)

-- The first call on a machine that has a registry.
abbrev pub IsNew : Host → Type 0
IsNew h = (h.callbacks ≡ registrar) × (h.state_chan_setup ≡ none)

-- Its registration, and what it returns.
DoesRegister : Ctx → Registry → Host → Type 0
DoesRegister ctx r h =
    let (r', error) = register_hook post r (broadcast_config h) in
    ((prepare (some ctx) h r).0.1 ≡ r') × ((prepare (some ctx) h r).1 ≡ setup_error (some error))

first_call : (h : Host) (r : Registry) (ctx : Ctx) → IsNew h → DoesRegister ctx r h
unfolding prepare prepare_with set_up DoesRegister
first_call h r ctx (k, o) =
    subst (λ c. DoesRegister ctx r (record h { callbacks = c })) (sym k)
      (subst (λ o. DoesRegister ctx r (record h { callbacks = registrar; state_chan_setup = o }))
        (sym o) (refl, refl))

setup_error-none : (error : Option HookError) → setup_error (some error) ≡ none → error ≡ none
setup_error-none none h = refl
setup_error-none (some e) h = absurd (cc)

accepts_any :
    (h : Host) (r : Registry) (taken : Bool)
    → (h.hook_name == "") ≡ false
    → accepts_if r.transitions taken (broadcast_config h) ≡ (not taken && is_some r.transitions)
unfolding contains
accepts_any h r taken named = rw named refl

setup_error-unsome :
    (error : Option HookError) → is_some error ≡ false → setup_error (some error) ≡ none
setup_error-unsome none h = refl
setup_error-unsome (some e) h = absurd (cc)

-- The first Subscribe of a machine that has a registry and whose hook has a name returns no error,
-- up to its lock, exactly when the registry has a state table and no hook of that name.
pub prepare-ok_iff :
    (h : Host) (r : Registry) (ctx : Ctx)
    → IsNew h
    → (h.hook_name == "") ≡ false
    → ((prepare (some ctx) h r).1 ≡ none)
      ↔ ((has_key h.hook_name r.hooks ≡ false) × (is_some r.transitions ≡ true))
unfolding DoesRegister contains
prepare-ok_iff h r ctx new named =
    let (_, answer) = first_call h r ctx new in
    let accepted =
      sym (accepts_any h r (has_key h.hook_name r.hooks) named)
      ∙ sym (validate_entry-is_ok post r (broadcast_config h))
      ∙ register_hook-is_ok post r (broadcast_config h) in
    (
      λ q.
          let succeeds = ap is_some (setup_error-none _ (sym answer ∙ q)) in
          let both = accepted ∙ ap not succeeds in (ground (arith, both), ground (arith, both)),
      λ q. answer ∙ setup_error-unsome _ (ground (arith, accepted, q)),
    )

-- The first Subscribe of a machine that has a registry, where it returns no error up to its lock,
-- makes the registry run one action more after every transition, the broadcast hook, after all
-- others and with any states, and no other guard.
pub prepare-collect_entries :
    (h : Host) (r : Registry) (log : Log) (ctx : Ctx) (from to : String)
    → IsNew h
    → Represents r log
    → (prepare (some ctx) h r).1 ≡ none
    → let r' = (prepare (some ctx) h r).0.1 in
      (collect_entries post r' from to
        ≡ collect_entries post r from to ++ registered_entry post r (broadcast_config h) ∷ [])
      × (collect_entries pre r' from to ≡ collect_entries pre r from to)
unfolding DoesRegister contains matches
prepare-collect_entries h r log ctx from to new v done =
    let (same, answer) = first_call h r ctx new in
    let e = registered_entry post r (broadcast_config h) in
    elim (register_hook-Represents post r (broadcast_config h) log v) [
      | inr (error, q) ↦
          absurd
            (cc (ap (λ (p : Registry × Option HookError). setup_error (some p.1)) q, answer, done))
      | inl (_, v') ↦
          let represents =
            subst (λ r'. Represents r' (log ++ (h.hook_name, e) ∷ [])) (sym same) v' in
          let all = λ (t : HookType).
            collect_entries-keep represents t from to
            ∙ ap (keep (fires t from to)) (entries-append log ((h.hook_name, e) ∷ []))
            ∙ keep-append (fires t from to) (entries log) (e ∷ []) in
          (
            all post ∙ ap (λ l. l ++ e ∷ []) (sym (collect_entries-keep v post from to)),
            all pre ∙ append-nil _ ∙ sym (collect_entries-keep v pre from to),
          )
    ]
