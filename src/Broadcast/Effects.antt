-- ===== src/Broadcast/Effects.antt =====
-- hooks/broadcast/manager.go, Broadcast: that each event of a broadcast has one of the effects on a
-- channel, and what a whole broadcast comes to.
use go_fsm.Base.{
  some-inj, ℕ, ◌≡◌, ◌≢◌, refl, ap, subst, inl, inr, true, false, some, List, [], ◌∷◌, nat_eq,
  Bool-cases, Option-cases, beq_cases,
}
use go_fsm.Base.Int.{ℤ, pos, negsuc}
use go_fsm.Base.Lists.{keep}
use go_fsm.Broadcast.Subscriptions.{Subscription}
use go_fsm.Broadcast.Delivery.{is_negative, is_zero, take_out}
use go_fsm.Broadcast.Once.{on}

pub nonzero_negative : (d : ℤ) → is_zero d ≡ true → is_negative d ≡ false
nonzero_negative (pos n) h = refl
nonzero_negative (negsuc n) h = absurd (cc)

module _ (ch : ℕ) where
  -- What taking a subscription out of the pending ones leaves of those on the channel.
  abbrev pub TakenOut : List Subscription → Subscription × List Subscription → Type 0
  TakenOut p (x, others) =
      (on ch x ≡ false → keep (on ch) others ≡ keep (on ch) p)
      × (on ch x ≡ true
          → ((s : Subscription) → keep (on ch) p ≡ s ∷ [] → (x ≡ s) × (keep (on ch) others ≡ []))
            × (keep (on ch) p ≢ []))

  TakenOut-head :
      (x : Subscription) (others : List Subscription) → TakenOut (x ∷ others) (x, others)
  TakenOut-head x others = elim (Bool-cases (on ch x)) [
    | inl h ↦ (
      (λ n. absurd (cc (h, n))),
      λ _. ((λ s q. let q' = rw h at q in (cc, cc)), λ q. let q' = rw h at q in absurd (cc)),
    )
    | inr h ↦ ((λ _. rw h refl), λ k. absurd (cc (h, k)))
  ]

  TakenOut-tail :
      (y x : Subscription) (p others : List Subscription)
      → TakenOut p (x, others)
      → TakenOut (y ∷ p) (x, y ∷ others)
  TakenOut-tail y x p others t = elim (Bool-cases (on ch y)) [
    | inl h ↦ rw h (
      (λ n. ap (λ l. y ∷ l) (t.0 n)),
      λ k. ((λ s q. absurd ((t.1 k).1 (cc q))), λ q. absurd (cc q)),
    )
    | inr h ↦ rw h t
  ]

  pub take_out-TakenOut :
      (i : ℕ) (p : List Subscription) (out : Subscription × List Subscription)
      → take_out i p ≡ some out
      → TakenOut p out × (out.0.ref ≡ i)
  unfolding take_out
  take_out-TakenOut i [] out h = absurd (cc)
  take_out-TakenOut i (y ∷ p) out h = elim (beq_cases y.ref i) [
    | inl (q, b) ↦
        subst (λ out. TakenOut (y ∷ p) out × (out.0.ref ≡ i)) (some-inj (rw b at h))
          (TakenOut-head y p, q)
    | inr n ↦ elim (Option-cases (take_out i p)) [
      | inl e ↦ absurd (cc (rw (e, take_out) at (rw n at h)))
      | inr (o, e) ↦
          let (t, r) = take_out-TakenOut i p o e in
          subst (λ out. TakenOut (y ∷ p) out × (out.0.ref ≡ i))
            (some-inj (rw (e, take_out) at (rw n at h))) (TakenOut-tail y o.0 p o.1 t, r)
    ]
  ]
