-- ===== src/Broadcast/Guarantee.antt =====
-- hooks/broadcast/manager.go, Broadcast: what a broadcast guarantees its subscribers, and that it
-- can end.
use go_fsm.Base.{
  ℕ, ◌≡◌, ◌∙◌, refl, ap, inl, inr, ◌⊎◌, String, true, some, List, [], ◌∷◌, ◌++◌, map, nat_eq,
  beq_refl,
}
use go_fsm.Base.Lists.{All, contains, keep}
use go_fsm.Broadcast.Subscriptions.{Subscription}
use go_fsm.Broadcast.Delivery.{
  Chan, history, Round, Event, abandon, settle_at, take_out, settle, happen, happen_all, both_empty,
  is_over,
}
use go_fsm.Broadcast.Once.{IsCalm, on, IsExcused, Phase, waits, sends, delivered, missed}
use go_fsm.Broadcast.Follows.{happen_all-Phase}

-- Broadcast has the lock: its loop has all subscriptions before it.
abbrev pub start_round : List Subscription → (ℕ → Chan) → List ℕ → Round
start_round subs chans ended = record { todo = subs; pending = []; chans = chans; ended = ended }

pub both_empty_lem :
    (todo pending : List Subscription)
    → both_empty todo pending ≡ true
    → (todo ≡ []) × (pending ≡ [])
both_empty_lem [] [] h = (refl, refl)
both_empty_lem [] (s ∷ ss) h = absurd (cc)
both_empty_lem (s ∷ ss) pending h = absurd (cc)

pub take_out_head :
    (sub : Subscription) (others subs : List Subscription)
    → subs ≡ sub ∷ others
    → take_out sub.ref subs ≡ some (sub, others)
unfolding take_out
take_out_head sub others subs q = ap (take_out sub.ref) q ∙ rw (beq_refl sub.ref) refl

module _ (state : String) where
  abbrev pub Got : Subscription → List String → Round → Type 0
  Got s before r =
      (history (r.chans s.ch) ≡ before ++ state ∷ [])
      ⊎ ((history (r.chans s.ch) ≡ before) × IsExcused state s.ch s r.ended)

  pub Phase-Got :
      (s : Subscription) (before : List String) (r : Round)
      → is_over r ≡ true
      → Phase state s.ch s before r
      → Got s before r
  Phase-Got s before r h (waits a b c) =
      absurd (cc (a, ap (keep (on s.ch)) (both_empty_lem r.todo r.pending h).0))
  Phase-Got s before r h (sends a b c) =
      absurd (cc (b, ap (keep (on s.ch)) (both_empty_lem r.todo r.pending h).1))
  Phase-Got s before r h (delivered a b c) = inl c
  Phase-Got s before r h (missed a b c x) = inr (c, x)

  -- A broadcast that is over, whatever received, left and timed out meanwhile and in whatever
  -- order, has sent its state exactly once on the channel of a subscriber that waits for delivery
  -- and is still there, and at most once on that of any other, where the subscriber alone has its
  -- channel and no channel has both waiting receivers and values.
  pub happen_all-delivered :
      (subs : List Subscription) (chans : ℕ → Chan) (ended : List ℕ) (events : List Event)
      (r : Round) (s : Subscription)
      → ((k : ℕ) → IsCalm (chans k))
      → keep (on s.ch) subs ≡ s ∷ []
      → happen_all state events (start_round subs chans ended) ≡ some r
      → is_over r ≡ true
      → (history (r.chans s.ch) ≡ history (chans s.ch) ++ state ∷ [])
        ⊎ ((history (r.chans s.ch) ≡ history (chans s.ch)) × IsExcused state s.ch s r.ended)
  happen_all-delivered subs chans ended events r s calm alone h over =
      Phase-Got s (history (chans s.ch)) r over (
        happen_all-Phase state s.ch events (start_round subs chans ended) r s (history (chans s.ch))
          calm h (waits alone refl refl))

  abandon_head :
      (r : Round) (s : Subscription) (rest : List Subscription)
      → r.pending ≡ s ∷ rest
      → contains r.ended s.ref ≡ true
      → happen state (abandon s.ref) r ≡ some (record r { pending = rest })
  unfolding happen take_out settle
  abandon_head r s rest q left = rw (take_out_head s rest r.pending q, settle_at) (rw left refl)

  pub abandon_from :
      (subs : List Subscription) (r : Round)
      → r.todo ≡ []
      → r.pending ≡ subs
      → All (λ s. contains r.ended s.ref ≡ true) subs
      → (r' : Round) × (happen_all state (map (λ (s : Subscription). abandon s.ref) subs) r
          ≡ some r')
        × (is_over r' ≡ true)
  unfolding happen_all
  abandon_from [] r t p a = (r, refl, ap (λ l. both_empty l r.pending) t ∙ ap (both_empty []) p)
  abandon_from (s ∷ subs) r t p a =
      let (r', h, over) = abandon_from subs (record r { pending = subs }) t refl a.1 in
      (r', rw (abandon_head r s subs p a.0, happen_all) h, over)

  -- A broadcast whose loop is over and whose waiting subscribers have all left, as after the first
  -- pass of UnsubscribeAll, can end without a receiver.
  pub happen_all-abandoned :
      (r : Round)
      → r.todo ≡ []
      → All (λ (s : Subscription). contains r.ended s.ref ≡ true) r.pending
      → (r' : Round) × (happen_all state (map (λ (s : Subscription). abandon s.ref) r.pending) r
          ≡ some r')
        × (is_over r' ≡ true)
  happen_all-abandoned r t a = abandon_from r.pending r t refl a
