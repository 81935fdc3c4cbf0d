-- ===== src/Subscribe/Kept.antt =====
-- fsm.go, Subscribe: that each step keeps a subscriber held, and brings it on to the next stage.
use go_fsm.Base.{
  ℕ, ◌≡◌, ◌∙◌, refl, sym, ap, subst, inl, inr, String, true, false, some, none, List, [], ◌∷◌, ◌++◌,
  ◌==◌, nat_eq, Bool-cases, arith,
}
use go_fsm.Base.Lists.{contains}
use go_fsm.Context.{Ctx}
use go_fsm.Broadcast.Subscriptions.{Subscription, subscription_of, chans_after}
use go_fsm.Broadcast.Delivery.{history, take_out}
use go_fsm.Broadcast.Once.{IsCalm, send_lem, on}
use go_fsm.Broadcast.Effects.{take_out-TakenOut}
use go_fsm.Broadcast.Happens.{with_chan_all}
use go_fsm.Broadcast.Follows.{keep-snoc_off, sent_history, off_history}
use go_fsm.Subscribe.System.{System, idle, new_chan, joined}
use go_fsm.Subscribe.Advances.{greet_sent}
use go_fsm.Subscribe.Alone.{here, here-insert, insert-IsKeyed}
use go_fsm.Subscribe.Served.{
  Heard, greeted, IsHeld, Stage, greets, rests, stores, sends, Stage-kept,
}

module _ (me : Subscription) where
  -- What a step leaves.
  abbrev pub Left : List String → List String → System → Type 0
  Left before told s = IsHeld me s × Stage me before told s

  -- Another subscription, on another channel.
  pub join-Left :
      (ctx : Ctx) (k : ℕ) (before told : List String) (s : System)
      → (k == me.ch) ≡ false
      → IsHeld me s
      → Stage me before told s
      → Left before told (joined ctx (some k) s)
  unfolding joined subscription_of chans_after
  join-Left ctx k before told s h held stage =
      let sub : Subscription = record {
        ref = s.manager.next_ref;
        ch = k;
        timeout = s.broadcast_timeout;
        external_channel = true;
      } in
      (
        record {
          keyed = insert-IsKeyed sub s.manager.subscribers held.keyed;
          stored_once = here-insert me.ch sub s.manager.subscribers held.keyed h ∙ held.stored_once;
          armed_once = keep-snoc_off (on me.ch) s.armed sub h ∙ held.armed_once;
          old = held.old;
          live = held.live;
          calm = held.calm;
        },
        Stage-kept me before told s (joined ctx (some k) s) (refl, refl, refl)
            (keep-snoc_off (on me.ch) s.greeting sub h) refl refl refl (λ i q. q) stage,
      )

  -- A call of Subscribe without a channel.
  pub join_nil-Left :
      (ctx : Ctx) (before told : List String) (s : System)
      → IsHeld me s
      → Stage me before told s
      → Left before told (joined ctx none s)
  unfolding joined subscription_of chans_after
  join_nil-Left ctx before told s held stage =
      let sub : Subscription = record {
        ref = s.manager.next_ref;
        ch = s.manager.made.next_chan;
        timeout = s.broadcast_timeout;
        external_channel = false;
      } in
      let h : (s.manager.made.next_chan == me.ch) ≡ false = ground (arith, held.old) in
      (
        record {
          keyed = insert-IsKeyed sub s.manager.subscribers held.keyed;
          stored_once = here-insert me.ch sub s.manager.subscribers held.keyed h ∙ held.stored_once;
          armed_once = keep-snoc_off (on me.ch) s.armed sub h ∙ held.armed_once;
          old = omega (arith, held.old);
          live = held.live;
          calm =
              with_chan_all IsCalm s.chans s.manager.made.next_chan (new_chan 1) held.calm
                (λ _. refl);
        },
        Stage-kept me before told s (joined ctx none s) (refl, refl, refl) refl refl refl
            (off_history s.target me.ch s.chans s.manager.made.next_chan (new_chan 1) h) (λ i q. q)
            stage,
      )

  -- A call of Subscribe leaves its `select`: the subscriber's own is there while it greets only.
  OnGreeting : List String → List String → System → Subscription → List Subscription → Type 0
  OnGreeting before told s sub others =
      (here me.ch others ≡ [])
      × (sub ≡ me)
      × (s.writer ≡ idle)
      × (here me.ch s.todo ≡ [])
      × (here me.ch s.pending ≡ [])
      × (told ≡ s.current ∷ [])
      × (history (s.chans me.ch) ≡ before)

  greeting_out :
      (i : ℕ) (before told : List String) (s : System) (sub : Subscription)
      (others : List Subscription)
      → take_out i s.greeting ≡ some (sub, others)
      → on me.ch sub ≡ true
      → Stage me before told s
      → OnGreeting before told s sub others
  unfolding OnGreeting
  greeting_out i before told s sub others q o stage =
      let (one, more) = (take_out-TakenOut me.ch i s.greeting (sub, others) q).0.1 o in
      elim stage [
        | greets a b e f t h ↦ ((one me b).1, (one me b).0, a, e, f, t, h)
        | rests a b e f t h ↦ absurd (more b)
        | stores a b e f t v h ↦ absurd (more b)
        | sends a b t v p ↦ absurd (more b)
      ]

  pub greet-Left :
      (i : ℕ) (before told : List String) (s : System) (sub : Subscription)
      (others : List Subscription)
      → take_out i s.greeting ≡ some (sub, others)
      → IsHeld me s
      → Stage me before told s
      → Left before told (greet_sent sub others s)
  unfolding OnGreeting
  greet-Left i before told s sub others q held stage = (
    record {
      keyed = held.keyed;
      stored_once = held.stored_once;
      armed_once = held.armed_once;
      old = held.old;
      live = held.live;
      calm =
          with_chan_all IsCalm s.chans sub.ch _ held.calm
            (send_lem (s.chans sub.ch) s.current (held.calm sub.ch)).1;
    },
    elim (Bool-cases (on me.ch sub)) [
      | inr o ↦
          Stage-kept me before told s (greet_sent sub others s) (refl, refl, refl)
            ((take_out-TakenOut me.ch i s.greeting (sub, others) q).0.0 o) refl refl
            (off_history s.target me.ch s.chans sub.ch _ o) (λ i k. k) stage
      | inl o ↦
          let (gone_out, _, a, e, f, t, h) = greeting_out i before told s sub others q o stage in
          rests a gone_out e f
            (subst (λ told. Heard me.timeout told (s.current ∷ [])) (sym t) (greeted s.current))
            (sent_history s.current me.ch s.chans sub.ch (held.calm sub.ch) o
              ∙ ap (λ l. l ++ s.current ∷ []) h)
    ],
  )

  pub give_up-Left :
      (i : ℕ) (before told : List String) (s : System) (sub : Subscription)
      (others : List Subscription)
      → take_out i s.greeting ≡ some (sub, others)
      → contains s.manager.ended sub.ref ≡ true
      → IsHeld me s
      → Stage me before told s
      → Left before told (record s { greeting = others })
  unfolding OnGreeting
  give_up-Left i before told s sub others q left held stage = (
    record {
      keyed = held.keyed;
      stored_once = held.stored_once;
      armed_once = held.armed_once;
      old = held.old;
      live = held.live;
      calm = held.calm;
    },
    elim (Bool-cases (on me.ch sub)) [
      | inr o ↦
          Stage-kept me before told s (record s { greeting = others }) (refl, refl, refl)
            ((take_out-TakenOut me.ch i s.greeting (sub, others) q).0.0 o) refl refl refl (λ i k. k)
            stage
      | inl o ↦
          let (_, same, _, _, _, _, _) = greeting_out i before told s sub others q o stage in
          absurd
            (cc (ap (λ (x : Subscription). contains s.manager.ended x.ref) same, left, held.live))
    ],
  )
