-- ===== src/Broadcast/Bounds.antt =====
-- hooks/broadcast/manager.go, Broadcast: how many steps a broadcast takes.
use go_fsm.Base.{
  some-inj, if◌then◌else◌, ℕ, suc, ◌+◌, ◌≤◌, ◌≡◌, ◌∙◌, ap, subst, inl, inr, String, Bool, true,
  false, some, List, [], ◌∷◌, ◌++◌, ◌==◌, nat_eq, Bool-cases, Option-cases, arith,
}
use go_fsm.Base.Lists.{length}
use go_fsm.Broadcast.Subscriptions.{Subscription}
use go_fsm.Broadcast.Delivery.{
  Round, Event, visit, deliver, abandon, expire, taken, gone, take_out, happen, happen_all,
}
use go_fsm.Broadcast.Happens.{
  Happens, sends_now, skips, launches, delivers, abandons, expires, takes, leaves, happen-Happens,
}

length-append : (xs ys : List Subscription) → length (xs ++ ys) ≡ length xs + length ys
length-append [] ys = omega arith
length-append (x ∷ xs) ys = ground (arith, length-append xs ys)

take_out-length :
    (i : ℕ) (p : List Subscription) (out : Subscription × List Subscription)
    → take_out i p ≡ some out
    → length p ≡ suc (length out.1)
unfolding take_out
take_out-length i [] out h = absurd (cc)
take_out-length i (y ∷ p) out h = elim (Bool-cases (y.ref == i)) [
  | inl b ↦ ap (λ (o : Subscription × List Subscription). suc (length o.1)) (some-inj (rw b at h))
  | inr b ↦ elim (Option-cases (take_out i p)) [
    | inl e ↦ absurd (cc (rw (e, take_out) at (rw b at h)))
    | inr (o, e) ↦
        ap suc (take_out-length i p o e)
        ∙ ap (λ (o : Subscription × List Subscription). suc (length o.1))
            (some-inj (rw (e, take_out) at (rw b at h)))
  ]
]

-- The steps that the loop and its goroutines have yet to take, at most: a visit, and a `select`.
abbrev pub steps_left : Round → ℕ
steps_left r = length r.todo + (length r.todo + length r.pending)

-- Whether an event is a step of the broadcast: not one of receivers and contexts.
abbrev pub is_own : Event → Bool
is_own visit = true
is_own (deliver _) = true
is_own (abandon _) = true
is_own (expire _) = true
is_own (taken _) = false
is_own (gone _) = false

abbrev pub count_own : List Event → ℕ
count_own [] = 0
count_own (event ∷ events) = if is_own event then suc (count_own events) else count_own events

-- A pending subscription goes.
one_less :
    (r : Round) (i : ℕ) (sub : Subscription) (others : List Subscription)
    → take_out i r.pending ≡ some (sub, others)
    → suc (length r.todo + (length r.todo + length others)) ≡ steps_left r
one_less r i sub others q = omega (arith, take_out-length i r.pending (sub, others) q)

Happens-steps_left :
    (state : String) (event : Event) (r r' : Round)
    → Happens state r event r'
    → (if is_own event then suc (steps_left r') else steps_left r') ≤ steps_left r
Happens-steps_left state _ r _ (sends_now sub rest q z n) = omega (arith, ap length q)
Happens-steps_left state _ r _ (skips sub rest q z) = omega (arith, ap length q)
Happens-steps_left state _ r _ (launches sub rest q z) =
    omega (arith, ap length q, length-append r.pending (sub ∷ []))
Happens-steps_left state _ r _ (delivers i sub others q n) =
    omega (arith, one_less r i sub others q)
Happens-steps_left state _ r _ (abandons i sub others q n) =
    omega (arith, one_less r i sub others q)
Happens-steps_left state _ r _ (expires i sub others q n) = omega (arith, one_less r i sub others q)
Happens-steps_left state _ r _ (takes k) = omega arith
Happens-steps_left state _ r _ (leaves i) = omega arith

pub happen_all-steps_left :
    (state : String) (events : List Event) (r r' : Round)
    → happen_all state events r ≡ some r'
    → count_own events + steps_left r' ≤ steps_left r
unfolding happen_all
happen_all-steps_left state [] r r' h =
    subst (λ (r' : Round). 0 + steps_left r' ≤ steps_left r) (some-inj h) (omega arith)
happen_all-steps_left state (event ∷ events) r r' h = elim (Option-cases (happen state event r)) [
  | inl n ↦ absurd (cc (rw (n, happen_all) at h))
  | inr (r'', e) ↦
      let one = Happens-steps_left state event r r'' (happen-Happens state r r'' event e) in
      let rest = happen_all-steps_left state events r'' r' (rw (e, happen_all) at h) in
      elim (Bool-cases (is_own event)) [
        | inl o ↦ rw o (let one' = rw o at one in omega (arith, one', rest))
        | inr o ↦ rw o (let one' = rw o at one in omega (arith, one', rest))
      ]
]
