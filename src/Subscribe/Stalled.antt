-- ===== src/Subscribe/Stalled.antt =====
-- fsm.go, Subscribe: a call without a channel, which waits in its `select` for its context only.
use go_fsm.Base.{
  some-inj, ℕ, ◌≡◌, ◌∙◌, refl, ap, subst, inl, inr, String, Bool, true, false, ◌||◌, some, none,
  List, [], ◌∷◌, ◌++◌, ◌==◌, nat_eq, Option-cases, Bool-cases, List-cases, arith, beq_refl,
  beq_cases,
}
use go_fsm.Base.Lists.{All, contains}
use go_fsm.Context.{Ctx}
use go_fsm.Broadcast.Subscriptions.{Subscription, subscription_of, chans_after}
use go_fsm.Broadcast.Delivery.{take_out}
use go_fsm.Broadcast.Guarantee.{both_empty_lem}
use go_fsm.Subscribe.System.{
  System, can_read, can_write, round_of, Step, join, greet, give_up, give_up_nil, commit, start,
  inside, finish, drop, joined, advance, run,
}
use go_fsm.Subscribe.Advances.{
  Advances, joins, greets_one, gives_up, gives_up_nil, commits_to, starts, goes_on, finishes, drops,
  run_keeps,
}
use go_fsm.Subscribe.Served.{ends}
use go_fsm.Subscribe.Turns.{happen_live, remove_locked_rest}

-- A subscription of the number is in the list.
unfoldable has_ref : ℕ → List Subscription → Bool
has_ref i [] = false
has_ref i (sub ∷ subs) = sub.ref == i || has_ref i subs

has_ref-append :
    (i : ℕ) (xs ys : List Subscription) → has_ref i (xs ++ ys) ≡ (has_ref i xs || has_ref i ys)
unfolding has_ref
has_ref-append i [] ys = refl
has_ref-append i (x ∷ xs) ys = ground (arith, has_ref-append i xs ys)

take_out-has_ref :
    (i j : ℕ) (p : List Subscription) (sub : Subscription) (others : List Subscription)
    → take_out j p ≡ some (sub, others)
    → (sub.ref == i) ≡ false
    → has_ref i p ≡ true
    → has_ref i others ≡ true
unfolding has_ref take_out
take_out-has_ref i j [] sub others h n v = absurd (cc)
take_out-has_ref i j (y ∷ p) sub others h n v = elim (beq_cases y.ref j) [
  | inl (q, b) ↦
      let e = some-inj (rw b at h) in
      let off : (y.ref == i) ≡ false =
        ap (λ (t : Subscription × List Subscription). t.0.ref == i) e ∙ n in
      subst (λ (t : Subscription × List Subscription). has_ref i t.1 ≡ true) e
        (ground (arith, v, off))
  | inr b ↦ elim (Option-cases (take_out j p)) [
    | inl e ↦ absurd (cc (rw (e, take_out) at (rw b at h)))
    | inr (o, e) ↦
        let e' = some-inj (rw (e, take_out) at (rw b at h)) in
        subst (λ (t : Subscription × List Subscription). has_ref i t.1 ≡ true) e'
          (elim (Bool-cases (y.ref == i)) [
            | inl k ↦ rw k refl
            | inr k ↦ rw k (
                take_out-has_ref i j p o.0 o.1 e
                  (ap (λ (t : Subscription × List Subscription). t.0.ref == i) e' ∙ n) (rw k at v))
          ])
  ]
]

reader-can_write :
    (s : System) (x : Subscription) (xs : List Subscription)
    → s.stuck ≡ x ∷ xs
    → can_write s ≡ false
reader-can_write s x xs e = elim (Bool-cases (can_write s)) [
  | inr h ↦ h
  | inl h ↦ absurd (cc ((both_empty_lem s.greeting s.stuck (ground (arith, h))).1, e))
]

-- The step that the call waits for.
abbrev pub ends_context : ℕ → Step → Bool
ends_context i (inside event) = ends i event
ends_context i (join _ _) = false
ends_context i (greet _) = false
ends_context i (give_up _) = false
ends_context i (give_up_nil _) = false
ends_context i (commit _) = false
ends_context i start = false
ends_context i finish = false
ends_context i (drop _) = false

module _ (i : ℕ) where
  IsStalled : System → Type 0
  IsStalled s = (has_ref i s.stuck ≡ true) × (contains s.manager.ended i ≡ false)

  Advances-IsStalled :
      (step : Step) (s s' : System)
      → ends_context i step ≡ false
      → Advances s step s'
      → IsStalled s
      → IsStalled s'
  unfolding IsStalled joined subscription_of chans_after
  Advances-IsStalled _ s _ n (joins ctx none w) v =
      (has_ref-append i s.stuck _ ∙ ground (arith, v.0), v.1)
  Advances-IsStalled _ s _ n (joins ctx (some k) w) v = v
  Advances-IsStalled _ s _ n (greets_one j sub others e t) v = v
  Advances-IsStalled _ s _ n (gives_up j sub others e t) v = v
  Advances-IsStalled _ s _ n (gives_up_nil j sub others e t) v = (
    elim (beq_cases sub.ref i) [
      | inl (same, _) ↦ absurd (cc (ap (λ r. contains s.manager.ended r) same, t, v.1))
      | inr other ↦ take_out-has_ref i j s.stuck sub others e other v.0
    ],
    v.1,
  )
  Advances-IsStalled _ s _ n (commits_to to w) v = v
  Advances-IsStalled _ s _ n (starts w) v = v
  Advances-IsStalled _ s _ n (goes_on event r e) v =
      (v.0, happen_live s.target event (round_of s) r i n e v.1)
  Advances-IsStalled _ s _ n (finishes w over) v = v
  Advances-IsStalled _ s _ n (drops j sub others e t) v =
      (v.0, ap (λ l. contains l i) (remove_locked_rest s.manager sub).0 ∙ v.1)

  stalled_commit : (s : System) (to : String) → IsStalled s → advance (commit to) s ≡ none
  unfolding advance IsStalled has_ref
  stalled_commit s to v = elim (List-cases s.stuck) [
    | inl e ↦ absurd (cc (ap (has_ref i) e, v.0))
    | inr (x, xs, e) ↦ rw (reader-can_write s x xs e) refl
  ]

-- After Subscribe is called without a channel, and until its context ends, no transition stores a
-- state, whatever else happens.
pub run-stalled :
    (ctx : Ctx) (steps : List Step) (s s' : System) (to : String)
    → contains s.manager.ended s.manager.next_ref ≡ false
    → All (λ step. ends_context s.manager.next_ref step ≡ false) steps
    → run (join ctx none ∷ steps) s ≡ some s'
    → advance (commit to) s' ≡ none
unfolding run advance joined IsStalled has_ref subscription_of
run-stalled ctx steps s s' to live n h = elim (Bool-cases (can_read s.writer)) [
  | inr w ↦ absurd (cc (rw (w, run, advance) at h))
  | inl w ↦ stalled_commit s.manager.next_ref s' to (
      run_keeps (λ step. ends_context s.manager.next_ref step ≡ false)
        (IsStalled s.manager.next_ref) (Advances-IsStalled s.manager.next_ref) steps
        (joined ctx none s) s' n (rw (w, run, advance) at h)
        (
          has_ref-append s.manager.next_ref s.stuck _ ∙ ground (arith, beq_refl s.manager.next_ref),
          live,
        ))
]
