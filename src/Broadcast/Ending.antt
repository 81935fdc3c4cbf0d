-- ===== src/Broadcast/Ending.antt =====
-- hooks/broadcast/manager.go: what ending a subscription, or all of them, leaves.
use go_fsm.Base.{
  some-inj, ℕ, suc, ◌≡◌, ◌∙◌, refl, sym, subst, ap, inl, inr, Bool, true, false, not, ◌&&◌, ◌||◌,
  Option, none, some, List, [], ◌∷◌, ◌==◌, nat_eq, Option-cases, arith, beq_cases, beq_refl,
}
use go_fsm.Base.Lists.{contains, contains-set_add}
use go_fsm.Base.Maps.{Map, lookup, insert, has_key, lookup-insert, lookup-erase}
use go_fsm.Context.{Ctx}
use go_fsm.Broadcast.Subscriptions.{
  Subscription, Settings, SubscribeOption, apply_settings, no_settings, Manager, subscription_of,
  get_state_chan, cancel, remove_locked, signal_all, sweep_all, unsubscribe_all,
}
use go_fsm.Broadcast.Sound.{IsSound}

-- A channel, or a number, of one of the subscriptions.
abbrev has_chan : ℕ → Map ℕ Subscription → Bool
has_chan k [] = false
has_chan k ((_, sub) ∷ rest) = sub.ch == k || has_chan k rest

abbrev pub has_ref : ℕ → Map ℕ Subscription → Bool
has_ref r [] = false
has_ref r ((_, sub) ∷ rest) = sub.ref == r || has_ref r rest

-- The subscriptions after a removal: none under the channel of the one removed, whichever was
-- stored there.
remove_locked-has_key :
    (m : Manager) (sub : Subscription) (k : ℕ)
    → has_key k (remove_locked m sub).subscribers ≡ (has_key k m.subscribers && not (sub.ch == k))
unfolding remove_locked
remove_locked-has_key m sub k = elim (Option-cases (lookup sub.ch m.subscribers)) [
  | inl n ↦
      rw (n, remove_locked)
        (elim (beq_cases sub.ch k) [
          | inl (q, h) ↦ ground (arith, h, subst (λ c. lookup c m.subscribers ≡ none) q n)
          | inr h ↦ ground (arith, h)
        ])
  | inr (s, e) ↦ rw (e, remove_locked) (ground (arith, lookup-erase sub.ch k m.subscribers))
]

remove_locked-ended : (m : Manager) (sub : Subscription) → (remove_locked m sub).ended ≡ m.ended
unfolding remove_locked
remove_locked-ended m sub = elim (Option-cases (lookup sub.ch m.subscribers)) [
  | inl n ↦ rw (n, remove_locked) refl
  | inr (s, e) ↦ rw (e, remove_locked) refl
]

sweep_all-has_key :
    (m : Manager) (subs : Map ℕ Subscription) (k : ℕ)
    → has_key k (sweep_all m subs).subscribers ≡ (has_key k m.subscribers && not (has_chan k subs))
unfolding sweep_all cancel
sweep_all-has_key m [] k = ground arith
sweep_all-has_key m ((j, sub) ∷ rest) k =
    sweep_all-has_key (remove_locked (cancel m sub) sub) rest k
    ∙ ground (arith, remove_locked-has_key (cancel m sub) sub k)

sweep_all-ended :
    (m : Manager) (subs : Map ℕ Subscription) (r : ℕ)
    → contains (sweep_all m subs).ended r ≡ (contains m.ended r || has_ref r subs)
unfolding sweep_all cancel
sweep_all-ended m [] r = ground arith
sweep_all-ended m ((j, sub) ∷ rest) r =
    sweep_all-ended (remove_locked (cancel m sub) sub) rest r
    ∙ ap (λ l. contains l r || has_ref r rest) (remove_locked-ended (cancel m sub) sub)
    ∙ ground (arith, contains-set_add m.ended sub.ref r)

signal_all-subscribers :
    (m : Manager) (subs : Map ℕ Subscription) → (signal_all m subs).subscribers ≡ m.subscribers
unfolding signal_all cancel
signal_all-subscribers m [] = refl
signal_all-subscribers m ((j, sub) ∷ rest) = signal_all-subscribers (cancel m sub) rest

has_chan_at :
    (subs : Map ℕ Subscription) (k : ℕ) (s : Subscription)
    → lookup k subs ≡ some s
    → s.ch ≡ k
    → has_chan k subs ≡ true
unfolding lookup
has_chan_at [] k s h q = absurd (cc)
has_chan_at ((j, w) ∷ rest) k s h q = elim (beq_cases j k) [
  | inl (_, b) ↦
      let same : w ≡ s = some-inj (rw b at h) in
      ground (arith, ap (λ (t : Subscription). t.ch) same ∙ q)
  | inr n ↦ ground (arith, has_chan_at rest k s (rw n at h) q)
]

pub has_ref_at :
    (subs : Map ℕ Subscription) (k : ℕ) (s : Subscription)
    → lookup k subs ≡ some s
    → has_ref s.ref subs ≡ true
unfolding lookup
has_ref_at [] k s h = absurd (cc)
has_ref_at ((j, w) ∷ rest) k s h = elim (beq_cases j k) [
  | inl (_, b) ↦
      let same : w ≡ s = some-inj (rw b at h) in
      ground (arith, ap (λ (t : Subscription). t.ref) same)
  | inr n ↦ ground (arith, has_ref_at rest k s (rw n at h))
]

-- UnsubscribeAll, on a sound manager and with nothing between its passes, leaves no subscription,
-- and every one that there was is ended.
pub unsubscribe_all_lem :
    (m : Manager)
    → IsSound m
    → ((k : ℕ) → has_key k (unsubscribe_all m).subscribers ≡ false)
      × ((k : ℕ) (s : Subscription)
          → lookup k m.subscribers ≡ some s
          → contains (unsubscribe_all m).ended s.ref ≡ true)
unfolding unsubscribe_all
unsubscribe_all_lem m v =
    let m' = signal_all m m.subscribers in
    let kept = signal_all-subscribers m m.subscribers in
    (
      λ k.
          sweep_all-has_key m' m'.subscribers k
          ∙ ap (λ subs. has_key k subs && not (has_chan k subs)) kept
          ∙ elim (Option-cases (lookup k m.subscribers)) [
            | inl n ↦ ground (arith, n)
            | inr (s, e) ↦ ground (arith, e, has_chan_at m.subscribers k s e (v.keyed k s e))
          ],
      λ k s e.
          sweep_all-ended m' m'.subscribers s.ref
          ∙ ap (λ subs. contains m'.ended s.ref || has_ref s.ref subs) kept
          ∙ ground (arith, has_ref_at m.subscribers k s e),
    )

-- The channel that the settings bring.
chan_of :
    (config : Settings) (ch made ref : ℕ)
    → config.channel ≡ some ch
    → (subscription_of config made ref).ch ≡ ch
unfolding subscription_of
chan_of config ch made ref q = rw (q, subscription_of) refl

ref_of : (config : Settings) (made ref : ℕ) → (subscription_of config made ref).ref ≡ ref
unfolding subscription_of
ref_of config made ref = elim (Option-cases config.channel) [
  | inl n ↦ rw (n, subscription_of) refl
  | inr (ch, n) ↦ rw (n, subscription_of) refl
]

abbrev second_sub : Manager → List SubscribeOption → Subscription
second_sub m opts =
    let (config, made) = apply_settings opts (no_settings, m.made) in
    subscription_of config made.next_chan m.next_ref

-- A second subscription over a channel that one has already takes its place under the channel, and
-- the end of the first leaves nothing stored there, although the second has not ended, where its
-- number was not among the ended ones.
pub shared_channel-remove_locked :
    (m m' : Manager) (first second : Ctx) (opts opts' : List SubscribeOption) (ch : ℕ)
    (sub sub' : Subscription)
    → (apply_settings opts (no_settings, m.made)).0.channel ≡ some ch
    → get_state_chan m (some first) opts ≡ (m', some sub)
    → (apply_settings opts' (no_settings, m'.made)).0.channel ≡ some ch
    → (get_state_chan m' (some second) opts').1 ≡ some sub'
    → contains m.ended (suc m.next_ref) ≡ false
    → let m'' = (get_state_chan m' (some second) opts').0 in
      (lookup ch m''.subscribers ≡ some sub')
      × (has_key ch (remove_locked (cancel m'' sub) sub).subscribers ≡ false)
      × (contains (remove_locked (cancel m'' sub) sub).ended sub'.ref ≡ false)
unfolding get_state_chan cancel
shared_channel-remove_locked m m' first second opts opts' ch sub sub' q h q' h' live =
    let m'' = (get_state_chan m' (some second) opts').0 in
    let config = (apply_settings opts (no_settings, m.made)).0 in
    let config' = (apply_settings opts' (no_settings, m'.made)).0 in
    let made = (apply_settings opts (no_settings, m.made)).1.next_chan in
    let made' = (apply_settings opts' (no_settings, m'.made)).1.next_chan in
    let same : subscription_of config made m.next_ref ≡ sub =
      some-inj (ap (λ (r : Manager × Option Subscription). r.1) h) in
    let over : sub.ch ≡ ch =
      ap (λ (s : Subscription). s.ch) (sym same) ∙ chan_of config ch made m.next_ref q in
    let first_ref : sub.ref ≡ m.next_ref =
      ap (λ (s : Subscription). s.ref) (sym same) ∙ ref_of config made m.next_ref in
    let second_ref : sub'.ref ≡ suc m.next_ref =
      ap (λ (s : Subscription). s.ref) (sym (some-inj h'))
      ∙ ref_of config' made' m'.next_ref
      ∙ ap (λ (r : Manager × Option Subscription). r.0.next_ref) (sym h) in
    let ended : m'.ended ≡ m.ended =
      ap (λ (r : Manager × Option Subscription). r.0.ended) (sym h) in
    (
      ap (λ c. lookup ch (insert c (second_sub m' opts') m'.subscribers))
            (chan_of config' ch made' m'.next_ref q')
          ∙ lookup-insert ch ch (second_sub m' opts') m'.subscribers
          ∙ rw (beq_refl ch) h',
      remove_locked-has_key (cancel m'' sub) sub ch
          ∙ ap (λ c. has_key ch m''.subscribers && not (c == ch)) over
          ∙ ground (arith, beq_refl ch),
      ap (λ l. contains l sub'.ref) (remove_locked-ended (cancel m'' sub) sub)
          ∙ contains-set_add m'.ended sub.ref sub'.ref
          ∙ ap (λ l. contains l sub'.ref || sub.ref == sub'.ref) ended
          ∙ ap (λ r. contains m.ended r || sub.ref == r) second_ref
          ∙ ground (arith, live, first_ref),
    )
