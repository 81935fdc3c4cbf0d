-- ===== src/Broadcast/Releases.antt =====
-- hooks/broadcast/manager.go, UnsubscribeAll: its first pass, while a broadcast is under way.
use go_fsm.Base.{
  ℕ, ◌≡◌, ◌∙◌, refl, sym, subst, inl, inr, ◌⊎◌, String, true, ◌||◌, some, List, [], ◌∷◌, ◌++◌, map,
  nat_eq, Bool-cases, arith,
}
use go_fsm.Base.Lists.{All, All-append, All-map, contains, contains-set_add}
use go_fsm.Base.Maps.{Map, lookup}
use go_fsm.Broadcast.Subscriptions.{Subscription, Manager, cancel, signal_all}
use go_fsm.Broadcast.Delivery.{
  is_zero, is_ready, Round, Event, visit, abandon, visit_sub, happen, happen_all, is_over,
}
use go_fsm.Broadcast.Guarantee.{abandon_from}
use go_fsm.Broadcast.Bounds.{is_own}
use go_fsm.Broadcast.Ending.{has_ref, has_ref_at}

signal_all-ended :
    (m : Manager) (subs : Map ℕ Subscription) (i : ℕ)
    → contains (signal_all m subs).ended i ≡ (contains m.ended i || has_ref i subs)
unfolding signal_all cancel
signal_all-ended m [] i = ground arith
signal_all-ended m ((j, sub) ∷ rest) i =
    signal_all-ended (cancel m sub) rest i ∙ ground (arith, contains-set_add m.ended sub.ref i)

module _ (state : String) where
  pub visit_sub_rest :
      (r : Round) (sub : Subscription) (rest : List Subscription)
      → let r' = visit_sub state r sub rest in
        (r'.todo ≡ rest)
        × (r'.ended ≡ r.ended)
        × ((r'.pending ≡ r.pending) ⊎ (r'.pending ≡ r.pending ++ sub ∷ []))
  unfolding visit_sub
  visit_sub_rest r sub rest = elim (Bool-cases (is_zero sub.timeout)) [
    | inr z ↦ rw z (refl, refl, inr refl)
    | inl z ↦ elim (Bool-cases (is_ready (r.chans sub.ch))) [
      | inl n ↦ rw z (rw n (refl, refl, inl refl))
      | inr n ↦ rw z (rw n (refl, refl, inl refl))
    ]
  ]

  -- Every one of the subscriptions has left.
  abbrev HaveLeft : List ℕ → List Subscription → Type 0
  HaveLeft ended subs = All (λ (s : Subscription). contains ended s.ref ≡ true) subs

  -- A way to end a round without a receiver.
  Ends : Round → Type 0
  Ends r =
      (events : List Event) × (r' : Round) × (happen_all state events r ≡ some r')
      × (is_over r' ≡ true)
      × All (λ event. is_own event ≡ true) events

  own_abandons :
      (subs : List Subscription)
      → All (λ event. is_own event ≡ true) (map (λ (s : Subscription). abandon s.ref) subs)
  own_abandons [] = tt
  own_abandons (s ∷ subs) = (refl, own_abandons subs)

  still_left :
      (r r' : Round) (sub : Subscription)
      → r'.ended ≡ r.ended
      → (r'.pending ≡ r.pending) ⊎ (r'.pending ≡ r.pending ++ sub ∷ [])
      → contains r.ended sub.ref ≡ true
      → HaveLeft r.ended r.pending
      → HaveLeft r'.ended r'.pending
  still_left r r' sub e (inl p) h a =
      subst (λ l. HaveLeft l r'.pending) (sym e) (subst (HaveLeft r.ended) (sym p) a)
  still_left r r' sub e (inr p) h a =
      subst (λ l. HaveLeft l r'.pending) (sym e)
        (subst (HaveLeft r.ended) (sym p) (
          All-append (λ (s : Subscription). contains r.ended s.ref ≡ true) r.pending (sub ∷ []) a
            (h, tt)))

  left-Ends :
      (todo : List Subscription) (r : Round)
      → r.todo ≡ todo
      → HaveLeft r.ended todo
      → HaveLeft r.ended r.pending
      → Ends r
  unfolding Ends happen_all happen
  left-Ends [] r t a b =
      let (r', h, over) = abandon_from state r.pending r t refl b in
      (map (λ (s : Subscription). abandon s.ref) r.pending, r', h, over, own_abandons r.pending)
  left-Ends (sub ∷ rest) r t a b =
      let r1 = visit_sub state r sub rest in
      let (t1, e1, p1) = visit_sub_rest r sub rest in
      let (events, r', h, over, own) =
        left-Ends rest r1 t1 (subst (λ l. HaveLeft l rest) (sym e1) a.1)
          (still_left r r1 sub e1 p1 a.0 b) in
      (visit ∷ events, r', simp (t, happen_all, happen) h, over, (refl, own))

  -- Once the first pass of UnsubscribeAll has signalled every subscriber, a broadcast under way to
  -- subscribers of the manager, wherever its loop is, can end by steps of its own, without a
  -- receiver, so that the second pass can have the lock.
  pub unsubscribe_all-releases :
      (m : Manager) (r : Round)
      → All (λ (s : Subscription). lookup s.ch m.subscribers ≡ some s) r.todo
      → All (λ (s : Subscription). lookup s.ch m.subscribers ≡ some s) r.pending
      → (events : List Event) × (r' : Round) × (happen_all state events
            (record r { ended = (signal_all m m.subscribers).ended })
          ≡ some r')
        × (is_over r' ≡ true)
        × All (λ event. is_own event ≡ true) events
  unfolding Ends
  unsubscribe_all-releases m r a b =
      let signaled : (s : Subscription)
          → lookup s.ch m.subscribers ≡ some s
          → contains (signal_all m m.subscribers).ended s.ref ≡ true =
        λ s e.
          signal_all-ended m m.subscribers s.ref
          ∙ ground (arith, has_ref_at m.subscribers s.ch s e) in
      left-Ends r.todo (record r { ended = (signal_all m m.subscribers).ended }) refl
        (All-map signaled r.todo a) (All-map signaled r.pending b)
