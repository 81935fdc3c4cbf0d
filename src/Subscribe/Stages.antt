-- ===== src/Subscribe/Stages.antt =====
-- fsm.go, Subscribe: that every step brings a subscriber on to the next stage.
use mathlib.Core.List.{append_assoc}
use go_fsm.Base.{
  ℕ, ◌<◌, ◌≡◌, ◌∙◌, refl, sym, ap, subst, inl, inr, String, true, false, some, none, List, [], ◌∷◌,
  ◌++◌, nat_eq, arith,
}
use go_fsm.Base.Lists.{contains}
use go_fsm.Broadcast.Subscriptions.{Subscription}
use go_fsm.Broadcast.Delivery.{Chan, is_over}
use go_fsm.Broadcast.Once.{IsCalm, waits}
use go_fsm.Broadcast.Guarantee.{both_empty_lem, Phase-Got}
use go_fsm.Subscribe.System.{
  System, idle, stored, sending, can_read, can_write, is_stored, is_sending, subscriptions,
  round_of, Step,
}
use go_fsm.Subscribe.Alone.{IsKeyed, here}
use go_fsm.Subscribe.Advances.{
  Advances, joins, greets_one, gives_up, gives_up_nil, commits_to, starts, goes_on, finishes, drops,
}
use go_fsm.Subscribe.Served.{
  Heard, got, skipped, touches, tell, IsHeld, Stage, greets, rests, stores, sends, Stage-kept,
}
use go_fsm.Subscribe.Kept.{Left, join-Left, join_nil-Left, greet-Left, give_up-Left}
use go_fsm.Subscribe.Turns.{inside-Left, drop-Left}

module _ (me : Subscription) (before : List String) where
  commit-Stage :
      (to : String) (told : List String) (s : System)
      → can_write s ≡ true
      → Stage me before told s
      → Stage me before (told ++ to ∷ []) (record s { current = to; target = to; writer = stored })
  commit-Stage to told s h (greets a b e f t k) =
      let no_reader : s.greeting ≡ [] = (both_empty_lem s.greeting s.stuck (ground (arith, h))).0 in
      absurd (cc (b, no_reader))
  commit-Stage to told s h (rests a b e f t k) = stores refl b e f refl t k
  commit-Stage to told s h (stores a b e f t v k) = absurd (ground (arith, h, ap can_read a))
  commit-Stage to told s h (sends a b t v p) = absurd (ground (arith, h, ap can_read a))

  start-Stage :
      (told : List String) (s : System)
      → is_stored s.writer ≡ true
      → IsHeld me s
      → Stage me before told s
      → Stage me before told
          (record s { todo = subscriptions s.manager.subscribers; pending = []; writer = sending })
  start-Stage told s h held (stores {told'} {heard} a b e f t v k) =
      sends refl b t v (waits held.stored_once refl k)
  start-Stage told s h held (greets a b e f t k) = absurd (cc (h, ap is_stored a))
  start-Stage told s h held (rests a b e f t k) = absurd (cc (h, ap is_stored a))
  start-Stage told s h held (sends a b t v p) = absurd (cc (h, ap is_stored a))

  finish-Stage :
      (told : List String) (s : System)
      → is_sending s.writer ≡ true
      → is_over (round_of s) ≡ true
      → IsHeld me s
      → Stage me before told s
      → Stage me before told (record s { writer = idle })
  finish-Stage told s h over held (sends {told'} {heard} a b t v p) =
      let (todo, pending) = both_empty_lem s.todo s.pending over in
      let rest = ap (here me.ch) todo in
      let wait = ap (here me.ch) pending in
      elim (Phase-Got s.target me (before ++ heard) (round_of s) over p) [
        | inl sent ↦
            rests refl b rest wait
              (subst (λ l. Heard me.timeout l (heard ++ s.target ∷ [])) (sym t) (got s.target v))
              (sent ∙ append_assoc before heard (s.target ∷ []))
        | inr (missed, inl late) ↦
            rests refl b rest wait
              (subst (λ l. Heard me.timeout l heard) (sym t) (skipped s.target late v)) missed
        | inr (missed, inr left) ↦ absurd (cc (left, held.live))
      ]
  finish-Stage told s h over held (greets a b e f t k) = absurd (cc (h, ap is_sending a))
  finish-Stage told s h over held (rests a b e f t k) = absurd (cc (h, ap is_sending a))
  finish-Stage told s h over held (stores a b e f t v k) = absurd (cc (h, ap is_sending a))

  -- What does not concern a subscription's being held.
  same-IsHeld :
      (s s' : System)
      → (s'.manager ≡ s.manager) × (s'.armed ≡ s.armed) × (s'.chans ≡ s.chans)
      → IsHeld me s
      → IsHeld me s'
  same-IsHeld s s' (m, a, c) held = record {
    keyed = subst (λ (m : _). IsKeyed m.subscribers) (sym m) held.keyed;
    stored_once = ap (λ (m : _). here me.ch (subscriptions m.subscribers)) m ∙ held.stored_once;
    armed_once = ap (here me.ch) a ∙ held.armed_once;
    old = subst (λ (m : _). me.ch < m.made.next_chan) (sym m) held.old;
    live = ap (λ (m : _). contains m.ended me.ref) m ∙ held.live;
    calm = subst (λ (chans : ℕ → Chan). (k : ℕ) → IsCalm (chans k)) (sym c) held.calm;
  }

  pub Advances-Left :
      (step : Step) (told : List String) (s s' : System)
      → touches me.ch me.ref step ≡ false
      → Advances s step s'
      → IsHeld me s
      → Stage me before told s
      → Left me before (tell step told) s'
  Advances-Left _ told s _ n (joins ctx none w) held stage =
      join_nil-Left me ctx before told s held stage
  Advances-Left _ told s _ n (joins ctx (some k) w) held stage =
      join-Left me ctx k before told s n held stage
  Advances-Left _ told s _ n (greets_one i sub others e t) held stage =
      greet-Left me i before told s sub others e held stage
  Advances-Left _ told s _ n (gives_up i sub others e t) held stage =
      give_up-Left me i before told s sub others e t held stage
  Advances-Left _ told s _ n (gives_up_nil i sub others e t) held stage = (
    same-IsHeld s _ (refl, refl, refl) held,
    Stage-kept me before told s _ (refl, refl, refl) refl refl refl refl (λ i k. k) stage,
  )
  Advances-Left _ told s _ n (commits_to to w) held stage =
      (same-IsHeld s _ (refl, refl, refl) held, commit-Stage to told s w stage)
  Advances-Left _ told s _ n (starts w) held stage =
      (same-IsHeld s _ (refl, refl, refl) held, start-Stage told s w held stage)
  Advances-Left _ told s _ n (goes_on event r e) held stage =
      inside-Left me before event told s r n e held stage
  Advances-Left _ told s _ n (finishes w over) held stage =
      (same-IsHeld s _ (refl, refl, refl) held, finish-Stage told s w over held stage)
  Advances-Left _ told s _ n (drops i sub others e t) held stage =
      drop-Left me before i told s sub others e t held stage
