-- ===== src/Broadcast/Progress.antt =====
-- hooks/broadcast/manager.go, Broadcast: that departures and timeouts let a broadcast go on to its end.
use go_fsm.Base.{
  some-inj, ℕ, ◌+◌, ◌≤◌, ◌≡◌, ◌∙◌, ap, subst, inl, inr, String, true, false, some, List, [], ◌∷◌,
  ◌==◌, nat_eq, Bool-cases, Option-cases, List-cases, arith, refl, ◌⊎◌,
}
use go_fsm.Base.Lists.{length, All, All-append, contains}
use go_fsm.Broadcast.Subscriptions.{Subscription}
use go_fsm.Broadcast.Delivery.{
  Chan, Round, Event, visit, abandon, expire, take_out, happen, happen_all, is_zero, is_negative,
  is_positive, visit_sub, settle, settle_at, both_empty, is_over,
}
use go_fsm.Broadcast.Happens.{
  Happens, sends_now, skips, launches, delivers, abandons, expires, takes, leaves, happen-Happens,
}
use go_fsm.Broadcast.Guarantee.{start_round, take_out_head}
use go_fsm.Broadcast.Bounds.{count_own, is_own, happen_all-steps_left}

take_out-All :
    (P : Subscription → Type 0) (i : ℕ) (p : List Subscription)
    (out : Subscription × List Subscription)
    → take_out i p ≡ some out
    → All P p
    → P out.0 × All P out.1
unfolding take_out
take_out-All P i [] out h a = absurd (cc)
take_out-All P i (y ∷ p) out h a = elim (Bool-cases (y.ref == i)) [
  | inl b ↦
      subst (λ (o : Subscription × List Subscription). P o.0 × All P o.1) (some-inj (rw b at h)) a
  | inr b ↦ elim (Option-cases (take_out i p)) [
    | inl e ↦ absurd (cc (rw (e, take_out) at (rw b at h)))
    | inr (o, e) ↦
        let (one, rest) = take_out-All P i p o e a.1 in
        subst (λ (o : Subscription × List Subscription). P o.0 × All P o.1)
          (some-inj (rw (e, take_out) at (rw b at h))) (one, (a.0, rest))
  ]
]

module _ (P : Subscription → Type 0) where
  -- `P` holds of all subscriptions, and those with a goroutine are not best-effort.
  abbrev AreLaunched : Round → Type 0
  AreLaunched r = All P r.todo × All (λ s. P s × (is_zero s.timeout ≡ false)) r.pending

  Happens-AreLaunched :
      (state : String) (event : Event) (r r' : Round)
      → Happens state r event r'
      → AreLaunched r
      → AreLaunched r'
  Happens-AreLaunched state _ r _ (sends_now sub rest q z n) (a, b) = ((subst (All P) q a).1, b)
  Happens-AreLaunched state _ r _ (skips sub rest q z) (a, b) = ((subst (All P) q a).1, b)
  Happens-AreLaunched state _ r _ (launches sub rest q z) (a, b) =
      let a' = subst (All P) q a in
      (
        a'.1,
        All-append (λ s. P s × (is_zero s.timeout ≡ false)) r.pending (sub ∷ []) b ((a'.0, z), tt),
      )
  Happens-AreLaunched state _ r _ (delivers i sub others q n) (a, b) =
      (a, (take_out-All _ i r.pending (sub, others) q b).1)
  Happens-AreLaunched state _ r _ (abandons i sub others q n) (a, b) =
      (a, (take_out-All _ i r.pending (sub, others) q b).1)
  Happens-AreLaunched state _ r _ (expires i sub others q n) (a, b) =
      (a, (take_out-All _ i r.pending (sub, others) q b).1)
  Happens-AreLaunched state _ r _ (takes k) v = v
  Happens-AreLaunched state _ r _ (leaves i) v = v

  happen_all-AreLaunched :
      (state : String) (events : List Event) (r r' : Round)
      → happen_all state events r ≡ some r'
      → AreLaunched r
      → AreLaunched r'
  unfolding happen_all
  happen_all-AreLaunched state [] r r' h v = subst AreLaunched (some-inj h) v
  happen_all-AreLaunched state (event ∷ events) r r' h v =
      elim (Option-cases (happen state event r)) [
        | inl n ↦ absurd (cc (rw (n, happen_all) at h))
        | inr (r'', e) ↦
            happen_all-AreLaunched state events r'' r' (rw (e, happen_all) at h)
              (Happens-AreLaunched state event r r'' (happen-Happens state r r'' event e) v)
      ]

-- A guaranteed subscriber has left.
abbrev pub HasLeft : List ℕ → Subscription → Type 0
HasLeft ended s = is_negative s.timeout ≡ true → contains ended s.ref ≡ true

-- A step of the broadcast's own can come.
abbrev pub GoesOn : String → Round → Type 0
GoesOn state r =
    (event : Event) × (r' : Round) × (is_own event ≡ true) × (happen state event r ≡ some r')

pending-GoesOn :
    (state : String) (r : Round) (s : Subscription) (others : List Subscription)
    → r.pending ≡ s ∷ others
    → HasLeft r.ended s
    → is_zero s.timeout ≡ false
    → GoesOn state r
unfolding happen settle
pending-GoesOn state r s others p left z =
    let head = take_out_head s others r.pending p in
    elim (Bool-cases (is_negative s.timeout)) [
      | inl n ↦ (
        abandon s.ref,
        record r { pending = others },
        refl,
        rw (head, settle_at) (rw (left n) refl),
      )
      | inr n ↦
          let positive : is_positive s.timeout ≡ true = ground (arith, n, z) in
          (
            expire s.ref,
            record r { pending = others },
            refl,
            rw (head, settle_at) (rw positive refl),
          )
    ]

over_or_GoesOn :
    (state : String) (r : Round)
    → AreLaunched (HasLeft r.ended) r
    → (is_over r ≡ true) ⊎ GoesOn state r
unfolding happen
over_or_GoesOn state r (a, b) = elim (List-cases r.todo) [
  | inr (sub, rest, e) ↦ inr (visit, visit_sub state r sub rest, refl, rw e refl)
  | inl e ↦ elim (List-cases r.pending) [
    | inl p ↦ inl (ap (λ l. both_empty l r.pending) e ∙ ap (both_empty []) p)
    | inr (s, others, p) ↦
        let (left, z) =
          (subst (All (λ s. HasLeft r.ended s × (is_zero s.timeout ≡ false))) p b).0 in
        inr (pending-GoesOn state r s others p left z)
  ]
]

-- A broadcast takes at most two steps of its own for each subscription, a visit of the loop and the
-- end of a goroutine, whatever receivers and contexts do meanwhile; and at any moment, where every
-- subscriber with a negative timeout has left, it is over or can take such a step, without a
-- receiver.
pub happen_all-goes_on :
    (state : String) (subs : List Subscription) (chans : ℕ → Chan) (ended : List ℕ)
    (events : List Event) (r : Round)
    → happen_all state events (start_round subs chans ended) ≡ some r
    → All (λ (s : Subscription). is_negative s.timeout ≡ true → contains r.ended s.ref ≡ true) subs
    → (count_own events ≤ length subs + length subs)
      × ((is_over r ≡ true)
          ⊎ ((event : Event) × (r' : Round) × (is_own event ≡ true)
              × (happen state event r ≡ some r')))
happen_all-goes_on state subs chans ended events r h left = (
  omega (arith, happen_all-steps_left state events (start_round subs chans ended) r h),
  over_or_GoesOn state r (
      happen_all-AreLaunched (HasLeft r.ended) state events (start_round subs chans ended) r h
        (left, tt)),
)
