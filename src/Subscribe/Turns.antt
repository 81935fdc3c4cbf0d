-- ===== src/Subscribe/Turns.antt =====
-- fsm.go, Subscribe: that a transition, its broadcast and the end of other subscriptions bring a
-- subscriber on to the next stage.
use go_fsm.Base.{
  ℕ, ◌<◌, ◌≡◌, ◌∙◌, refl, sym, ap, subst, inl, inr, String, true, false, some, List, nat_eq,
  Option-cases, Bool-cases, arith,
}
use go_fsm.Base.Lists.{contains, contains-set_add}
use go_fsm.Base.Maps.{lookup}
use go_fsm.Broadcast.Subscriptions.{Subscription, Manager, Made, remove_locked}
use go_fsm.Broadcast.Delivery.{Round, Event, happen, take_out}
use go_fsm.Broadcast.Once.{on}
use go_fsm.Broadcast.Effects.{take_out-TakenOut}
use go_fsm.Broadcast.Happens.{
  Happens, sends_now, skips, launches, delivers, abandons, expires, takes, leaves, happen-Happens,
}
use go_fsm.Broadcast.Follows.{happen-Follows}
use go_fsm.Subscribe.System.{System, round_of, with_round}
use go_fsm.Subscribe.Alone.{remove_locked-here}
use go_fsm.Subscribe.Served.{ends, IsHeld, Stage, Stage-kept, with_round-Stage}
use go_fsm.Subscribe.Kept.{Left}

-- An event that is not the end of the subscriber's context.
Happens-ended :
    (state : String) (event : Event) (r r' : Round) (i : ℕ)
    → ends i event ≡ false
    → Happens state r event r'
    → contains r.ended i ≡ false
    → contains r'.ended i ≡ false
Happens-ended state _ r _ i n (sends_now sub rest q z k) live = live
Happens-ended state _ r _ i n (skips sub rest q z) live = live
Happens-ended state _ r _ i n (launches sub rest q z) live = live
Happens-ended state _ r _ i n (delivers j sub others q k) live = live
Happens-ended state _ r _ i n (abandons j sub others q k) live = live
Happens-ended state _ r _ i n (expires j sub others q k) live = live
Happens-ended state _ r _ i n (takes k) live = live
Happens-ended state _ r _ i n (leaves j) live =
    contains-set_add r.ended j i ∙ ground (arith, live, n)

pub happen_live :
    (state : String) (event : Event) (r r' : Round) (i : ℕ)
    → ends i event ≡ false
    → happen state event r ≡ some r'
    → contains r.ended i ≡ false
    → contains r'.ended i ≡ false
happen_live state event r r' i n h live =
    Happens-ended state event r r' i n (happen-Happens state r r' event h) live

pub remove_locked_rest :
    (m : Manager) (sub : Subscription)
    → ((remove_locked m sub).ended ≡ m.ended) × ((remove_locked m sub).made ≡ m.made)
unfolding remove_locked
remove_locked_rest m sub = elim (Option-cases (lookup sub.ch m.subscribers)) [
  | inl n ↦ rw (n, remove_locked) (refl, refl)
  | inr (s, e) ↦ rw (e, remove_locked) (refl, refl)
]

module _ (me : Subscription) (before : List String) where
  pub inside-Left :
      (event : Event) (told : List String) (s : System) (r : Round)
      → ends me.ref event ≡ false
      → happen s.target event (round_of s) ≡ some r
      → IsHeld me s
      → Stage me before told s
      → Left me before told (with_round s r)
  inside-Left event told s r n h held stage =
      let (effect, calm) = happen-Follows s.target me.ch event (round_of s) r held.calm h in
      (
        record {
          keyed = held.keyed;
          stored_once = held.stored_once;
          armed_once = held.armed_once;
          old = held.old;
          live = happen_live s.target event (round_of s) r me.ref n h held.live;
          calm = calm;
        },
        with_round-Stage me before told s r effect stage,
      )

  pub drop-Left :
      (i : ℕ) (told : List String) (s : System) (sub : Subscription) (others : List Subscription)
      → take_out i s.armed ≡ some (sub, others)
      → contains s.manager.ended sub.ref ≡ true
      → IsHeld me s
      → Stage me before told s
      → Left me before told (record s { armed = others; manager = remove_locked s.manager sub })
  drop-Left i told s sub others q left held stage =
      let (out, _) = take_out-TakenOut me.ch i s.armed (sub, others) q in
      let (ended_same, made_same) = remove_locked_rest s.manager sub in
      elim (Bool-cases (on me.ch sub)) [
        | inl o ↦ absurd (
            cc (
              ap (λ (x : Subscription). contains s.manager.ended x.ref)
                  ((out.1 o).0 me held.armed_once).0,
              left,
              held.live,
            ))
        | inr o ↦
            let (same, keyed) = remove_locked-here me.ch s.manager sub held.keyed o in
            (
              record {
                keyed = keyed;
                stored_once = same ∙ held.stored_once;
                armed_once = out.0 o ∙ held.armed_once;
                old = subst (λ (m : Made). me.ch < m.next_chan) (sym made_same) held.old;
                live = ap (λ l. contains l me.ref) ended_same ∙ held.live;
                calm = held.calm;
              },
              Stage-kept me before told s _ (refl, refl, refl) refl refl refl refl
                  (λ j k. ap (λ l. contains l j) ended_same ∙ k) stage,
            )
      ]
