-- ===== src/Broadcast/Histories.antt =====
-- hooks/broadcast/manager.go: GetStateChan keeps the manager sound, and so does every history of
-- its operations.
use go_fsm.Base.{
  some-inj, ℕ, suc, ◌<◌, ◌≤◌, ◌≡◌, ◌∙◌, refl, sym, subst, ap, inl, inr, false, Option, none, some,
  List, [], ◌∷◌, nat_eq, Option-cases, Bool-cases, arith, beq_cases, ◌⊎◌,
}
use go_fsm.Base.Lists.{All, contains}
use go_fsm.Base.Maps.{Map, lookup, insert, is_some, lookup-insert}
use go_fsm.Context.{Ctx}
use go_fsm.Broadcast.Subscriptions.{
  Subscription, Settings, Made, make_sized, SubscribeOption, with_buffer_size, with_custom_channel,
  with_timeout, apply_setting, apply_settings, no_settings, Manager, subscription_of, chans_after,
  get_state_chan, cancel, remove_locked, signal_all, sweep_all,
}
use go_fsm.Broadcast.Sound.{
  IsSound, cancel-IsSound, remove_locked-IsSound, signal_all-IsSound, sweep_all-IsSound,
}

-- A channel that an option brings is an old one that is not closed.
abbrev pub BringsUsable : Manager → SubscribeOption → Type 0
BringsUsable m (with_buffer_size size) = Unit
BringsUsable m (with_custom_channel none) = Unit
BringsUsable m (with_custom_channel (some ch)) =
    (ch < m.made.next_chan) × (contains m.closed ch ≡ false)
BringsUsable m (with_timeout d) = Unit

abbrev pub IsUsableChannel : Manager → List SubscribeOption → Type 0
IsUsableChannel m opts = All (BringsUsable m) opts

below_next : {a b c : ℕ} → a < b → b ≤ c → a < c
below_next h k = omega arith

-- What a map answers after an insertion.
inserted :
    (k j : ℕ) (sub : Subscription) (subs : Map ℕ Subscription)
    → ((k ≡ j) × (lookup j (insert k sub subs) ≡ some sub))
      ⊎ (lookup j (insert k sub subs) ≡ lookup j subs)
inserted k j sub subs = elim (beq_cases k j) [
  | inl (q, h) ↦ inl (q, lookup-insert k j sub subs ∙ rw h refl)
  | inr n ↦ inr (lookup-insert k j sub subs ∙ rw n refl)
]

storing-IsSound :
    {m : Manager} (v : IsSound m) (sub : Subscription) (next : Made) (ref : ℕ)
    → contains m.closed sub.ch ≡ false
    → sub.ch < next.next_chan
    → m.made.next_chan ≤ next.next_chan
    → IsSound
        (record m { subscribers = insert sub.ch sub m.subscribers; made = next; next_ref = ref })
storing-IsSound {m} v sub next ref unclosed old later = record {
  keyed = λ k s q. elim (inserted sub.ch k sub m.subscribers) [
    | inl (e, h) ↦ ap (λ (s : Subscription). s.ch) (some-inj (sym q ∙ h)) ∙ e
    | inr h ↦ v.keyed k s (sym h ∙ q)
  ];
  unclosed = λ k q. elim (inserted sub.ch k sub m.subscribers) [
    | inl (e, h) ↦ subst (λ c. contains m.closed c ≡ false) e unclosed
    | inr h ↦ v.unclosed k (sym (ap is_some h) ∙ q)
  ];
  known = λ k q. elim (inserted sub.ch k sub m.subscribers) [
    | inl (e, h) ↦ subst (λ c. c < next.next_chan) e old
    | inr h ↦ below_next (v.known k (sym (ap is_some h) ∙ q)) later
  ];
  closed_known = λ k q. below_next (v.closed_known k q) later;
  once = v.once;
}

-- The options go on from settings whose channel, if any, is made and not closed.
abbrev AreGood : Manager → Settings × Made → Type 0
AreGood m (config, made) =
    ((ch : ℕ) → config.channel ≡ some ch → (ch < made.next_chan) × (contains m.closed ch ≡ false))
    × (m.made.next_chan ≤ made.next_chan)

later_unclosed :
    {m : Manager} → IsSound m → (k : ℕ) → m.made.next_chan ≤ k → contains m.closed k ≡ false
later_unclosed {m} v k h = elim (Bool-cases (contains m.closed k)) [
  | inl c ↦ absurd (omega (arith, v.closed_known k c))
  | inr c ↦ c
]

apply_setting-AreGood :
    {m : Manager} (v : IsSound m) (opt : SubscribeOption) (c : Settings × Made)
    → BringsUsable m opt
    → AreGood m c
    → AreGood m (apply_setting opt c)
unfolding apply_setting
apply_setting-AreGood {m} v (with_buffer_size size) c u g = (
  λ ch q.
      let same : c.1.next_chan ≡ ch = cc in
      subst (λ k. (k < suc c.1.next_chan) × (contains m.closed k ≡ false)) same
        (omega arith, later_unclosed v c.1.next_chan g.1),
  omega (arith, g.1),
)
apply_setting-AreGood v (with_custom_channel none) c u g = (λ ch q. absurd (cc), g.1)
apply_setting-AreGood {m} v (with_custom_channel (some own)) c u g = (
  λ ch q.
      let same : own ≡ ch = cc in
      subst (λ k. (k < c.1.next_chan) × (contains m.closed k ≡ false)) same
        (below_next u.0 g.1, u.1),
  g.1,
)
apply_setting-AreGood v (with_timeout d) c u g = g

apply_settings-AreGood :
    {m : Manager} (v : IsSound m) (opts : List SubscribeOption) (c : Settings × Made)
    → All (BringsUsable m) opts
    → AreGood m c
    → AreGood m (apply_settings opts c)
unfolding apply_settings
apply_settings-AreGood v [] c u g = g
apply_settings-AreGood v (opt ∷ opts) c u g =
    apply_settings-AreGood v opts (apply_setting opt c) u.1 (apply_setting-AreGood v opt c u.0 g)

-- The channel of a new subscription.
chosen :
    {m : Manager} (v : IsSound m) (c : Settings × Made) (ref : ℕ)
    → AreGood m c
    → (contains m.closed (subscription_of c.0 c.1.next_chan ref).ch ≡ false)
      × ((subscription_of c.0 c.1.next_chan ref).ch < (chans_after c.0 c.1).next_chan)
      × (m.made.next_chan ≤ (chans_after c.0 c.1).next_chan)
unfolding subscription_of chans_after
chosen {m} v c ref g = elim (Option-cases c.0.channel) [
  | inl n ↦
      rw (n, subscription_of, chans_after)
        (later_unclosed v c.1.next_chan g.1, omega arith, omega (arith, g.1))
  | inr (ch, e) ↦
      let (old, unclosed) = g.0 ch e in rw (e, subscription_of, chans_after) (unclosed, old, g.1)
]

get_state_chan-IsSound :
    {m : Manager} (v : IsSound m) (ctx : Option Ctx) (opts : List SubscribeOption)
    → IsUsableChannel m opts
    → IsSound (get_state_chan m ctx opts).0
unfolding get_state_chan
get_state_chan-IsSound v none opts usable = v
get_state_chan-IsSound {m} v (some ctx) opts usable =
    let c = apply_settings opts (no_settings, m.made) in
    let good =
      apply_settings-AreGood v opts (no_settings, m.made) usable
        ((λ ch q. absurd (cc)), omega arith) in
    let (unclosed, old, later) = chosen v c m.next_ref good in
    storing-IsSound v (subscription_of c.0 c.1.next_chan m.next_ref) (chans_after c.0 c.1)
      (suc m.next_ref) unclosed old later

-- A step of the manager: any of its operations, in any order. An end of a subscription may find it
-- ended already, and the two passes of UnsubscribeAll may have steps between them.
pub data ManagerStep (m : Manager) : Manager → Type 0 where
  make_chan : (size : ℕ) → ManagerStep m (record m { made = make_sized size m.made })
  subscribe :
      (ctx : Option Ctx) (opts : List SubscribeOption)
      → IsUsableChannel m opts
      → ManagerStep m (get_state_chan m ctx opts).0
  end : (sub : Subscription) → ManagerStep m (cancel m sub)
  remove : (sub : Subscription) → ManagerStep m (remove_locked m sub)
  signal : ManagerStep m (signal_all m m.subscribers)
  sweep : ManagerStep m (sweep_all m m.subscribers)

pub data Manages (m : Manager) : Manager → Type 0 where
  start : Manages m m
  then_step : {n o : Manager} → Manages m n → ManagerStep n o → Manages m o

ManagerStep-IsSound : {m n : Manager} → IsSound m → ManagerStep m n → IsSound n
ManagerStep-IsSound {m} v (make_chan size) = record {
  keyed = v.keyed;
  unclosed = v.unclosed;
  known = λ k q. omega (arith, v.known k q);
  closed_known = λ k q. omega (arith, v.closed_known k q);
  once = v.once;
}
ManagerStep-IsSound v (subscribe ctx opts usable) = get_state_chan-IsSound v ctx opts usable
ManagerStep-IsSound v (end sub) = cancel-IsSound v sub
ManagerStep-IsSound v (remove sub) = remove_locked-IsSound v sub
ManagerStep-IsSound {m} v signal = signal_all-IsSound m m.subscribers v
ManagerStep-IsSound {m} v sweep = sweep_all-IsSound m m.subscribers v

-- After any steps of the broadcast manager, in any order and from a sound one, where options bring
-- only channels that are made and not closed by it, no channel was closed twice and no subscriber's
-- channel is closed.
pub Manages-IsSound : {m n : Manager} → IsSound m → Manages m n → IsSound n
Manages-IsSound v start = v
Manages-IsSound v (then_step p s) = ManagerStep-IsSound (Manages-IsSound v p) s
