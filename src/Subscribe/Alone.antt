-- ===== src/Subscribe/Alone.antt =====
-- fsm.go, Subscribe: the manager's subscriptions on one channel, while others come and go.
use go_fsm.Base.{
  ℕ, ◌≡◌, refl, inl, inr, false, List, [], ◌∷◌, ◌++◌, ◌==◌, nat_eq, Bool-cases, Option-cases, arith,
  beq_refl, beq_cases,
}
use go_fsm.Base.Lists.{All, keep, keep-append}
use go_fsm.Base.Maps.{Map, lookup, insert, erase}
use go_fsm.Broadcast.Subscriptions.{Subscription, Manager, remove_locked}
use go_fsm.Broadcast.Once.{on}
use go_fsm.Subscribe.System.{subscriptions}

-- Every subscription is stored under its channel.
abbrev pub IsKeyed : Map ℕ Subscription → Type 0
IsKeyed m = All (λ (e : ℕ × Subscription). e.1.ch ≡ e.0) m

pub insert-IsKeyed :
    (sub : Subscription) (m : Map ℕ Subscription) → IsKeyed m → IsKeyed (insert sub.ch sub m)
unfolding insert
insert-IsKeyed sub [] v = (refl, tt)
insert-IsKeyed sub ((k, s) ∷ m) v = elim (Bool-cases (k == sub.ch)) [
  | inl h ↦ rw h (refl, v.1)
  | inr h ↦ rw h (v.0, insert-IsKeyed sub m v.1)
]

pub erase-IsKeyed : (k : ℕ) (m : Map ℕ Subscription) → IsKeyed m → IsKeyed (erase k m)
unfolding erase
erase-IsKeyed k [] v = tt
erase-IsKeyed k ((j, s) ∷ m) v = elim (Bool-cases (j == k)) [
  | inl h ↦ rw h (erase-IsKeyed k m v.1)
  | inr h ↦ rw h (v.0, erase-IsKeyed k m v.1)
]

module _ (ch : ℕ) where
  -- The subscriptions on the channel.
  abbrev pub here : List Subscription → List Subscription
  here subs = keep (on ch) subs

  pub here-snoc :
      (xs : List Subscription) (x : Subscription) → here (xs ++ x ∷ []) ≡ here xs ++ here (x ∷ [])
  here-snoc xs x = keep-append (on ch) xs (x ∷ [])

  pub here-insert :
      (sub : Subscription) (m : Map ℕ Subscription)
      → IsKeyed m
      → (sub.ch == ch) ≡ false
      → here (subscriptions (insert sub.ch sub m)) ≡ here (subscriptions m)
  unfolding insert
  here-insert sub [] v h = ground arith
  here-insert sub ((k, s) ∷ m) v h = elim (beq_cases k sub.ch) [
    | inl (q, e) ↦ rw e (let off : (s.ch == ch) ≡ false = rw (v.0, q) h in ground arith)
    | inr n ↦ rw n (ground (arith, here-insert sub m v.1 h))
  ]

  pub here-insert_on :
      (sub : Subscription) (m : Map ℕ Subscription)
      → IsKeyed m
      → sub.ch ≡ ch
      → here (subscriptions m) ≡ []
      → here (subscriptions (insert sub.ch sub m)) ≡ sub ∷ []
  unfolding insert
  here-insert_on sub [] v q h = rw (q, beq_refl ch) refl
  here-insert_on sub ((k, s) ∷ m) v q h = elim (Bool-cases (s.ch == ch)) [
    | inl o ↦ absurd (cc (rw o at h))
    | inr o ↦
        let other : (k == sub.ch) ≡ false = rw (← v.0, q) o in
        rw other (rw o (here-insert_on sub m v.1 q (rw o at h)))
  ]

  pub here-erase :
      (k : ℕ) (m : Map ℕ Subscription)
      → IsKeyed m
      → (k == ch) ≡ false
      → here (subscriptions (erase k m)) ≡ here (subscriptions m)
  unfolding erase
  here-erase k [] v h = refl
  here-erase k ((j, s) ∷ m) v h = elim (beq_cases j k) [
    | inl (q, e) ↦
        rw e
          (let off : (s.ch == ch) ≡ false = rw (v.0, q) h in ground (arith, here-erase k m v.1 h))
    | inr n ↦ rw n (ground (arith, here-erase k m v.1 h))
  ]

  pub remove_locked-here :
      (m : Manager) (sub : Subscription)
      → IsKeyed m.subscribers
      → (sub.ch == ch) ≡ false
      → (here (subscriptions (remove_locked m sub).subscribers)
          ≡ here (subscriptions m.subscribers))
        × IsKeyed (remove_locked m sub).subscribers
  unfolding remove_locked
  remove_locked-here m sub v h = elim (Option-cases (lookup sub.ch m.subscribers)) [
    | inl n ↦ rw (n, remove_locked) (refl, v)
    | inr (s, e) ↦
        rw (e, remove_locked)
          (here-erase sub.ch m.subscribers v h, erase-IsKeyed sub.ch m.subscribers v)
  ]
