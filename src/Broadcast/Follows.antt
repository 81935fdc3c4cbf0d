-- ===== src/Broadcast/Follows.antt =====
-- hooks/broadcast/manager.go, Broadcast: that each event of a broadcast has one of the effects on a
-- channel, and how far a whole broadcast is with a subscriber.
use go_fsm.Base.{
  some-inj, ℕ, ◌≡◌, ◌∙◌, refl, sym, ap, subst, inl, inr, ◌⊎◌, String, Bool, true, false, some, List,
  [], ◌∷◌, ◌++◌, ◌==◌, nat_eq, Bool-cases, Option-cases, arith, beq→eq,
}
use go_fsm.Base.Int.{ℤ, pos, negsuc}
use go_fsm.Base.Lists.{contains, contains-set_add, keep, keep-append}
use go_fsm.Broadcast.Subscriptions.{Subscription}
use go_fsm.Broadcast.Delivery.{
  Chan, send, receive, history, Round, Event, is_negative, is_positive, with_chan, take_out, happen,
  happen_all,
}
use go_fsm.Broadcast.Happens.{
  with_chan_all, sent_on, Happens, sends_now, skips, launches, delivers, abandons, expires, takes,
  leaves, happen-Happens,
}
use go_fsm.Broadcast.Once.{
  IsCalm, send_lem, receive_lem, on, IsExcused, Phase, Effect, apart, started, tried, settled,
  Effect-Phase,
}
use go_fsm.Broadcast.Effects.{nonzero_negative, take_out-TakenOut}

abbrev pub AreCalm : Round → Type 0
AreCalm r = (k : ℕ) → IsCalm (r.chans k)

pub keep-snoc_off :
    (p : Subscription → Bool) (xs : List Subscription) (x : Subscription)
    → p x ≡ false
    → keep p (xs ++ x ∷ []) ≡ keep p xs
keep-snoc_off p [] x h = rw h refl
keep-snoc_off p (y ∷ xs) x h = ground (arith, keep-snoc_off p xs x h)

not_negative : (d : ℤ) → is_positive d ≡ true → is_negative d ≡ false
not_negative (pos n) h = refl
not_negative (negsuc n) h = absurd (cc)

module _ (state : String) (ch : ℕ) where
  pub off_history :
      (chans : ℕ → Chan) (k : ℕ) (c : Chan)
      → (k == ch) ≡ false
      → history (with_chan chans k c ch) ≡ history (chans ch)
  off_history chans k c h = rw h refl

  at_chan : (chans : ℕ → Chan) (k : ℕ) (c : Chan) → (k == ch) ≡ true → with_chan chans k c ch ≡ c
  at_chan chans k c h = rw h refl

  pub sent_history :
      (chans : ℕ → Chan) (k : ℕ)
      → IsCalm (chans k)
      → (k == ch) ≡ true
      → history (with_chan chans k (send (chans k) state) ch) ≡ history (chans ch) ++ state ∷ []
  sent_history chans k calm h =
      ap history (at_chan chans k (send (chans k) state) h)
      ∙ (send_lem (chans k) state calm).0
      ∙ ap (λ j. history (chans j) ++ state ∷ []) (beq→eq k ch h)

  -- The loop's next subscription, on the channel or off it.
  here_on :
      (r : Round) (sub : Subscription) (rest : List Subscription)
      → r.todo ≡ sub ∷ rest
      → on ch sub ≡ true
      → keep (on ch) r.todo ≡ sub ∷ keep (on ch) rest
  here_on r sub rest q o = ap (keep (on ch)) q ∙ rw o refl

  here_off :
      (r : Round) (sub : Subscription) (rest : List Subscription)
      → r.todo ≡ sub ∷ rest
      → on ch sub ≡ false
      → keep (on ch) r.todo ≡ keep (on ch) rest
  here_off r sub rest q o = ap (keep (on ch)) q ∙ rw o refl

  -- The loop's next subscription goes, with its outcome.
  go_on :
      (r r' : Round) (sub : Subscription) (rest : List Subscription)
      → r.todo ≡ sub ∷ rest
      → r'.todo ≡ rest
      → r'.pending ≡ r.pending
      → ((i : ℕ) → contains r.ended i ≡ true → contains r'.ended i ≡ true)
      → (on ch sub ≡ false → history (r'.chans ch) ≡ history (r.chans ch))
      → (on ch sub ≡ true
          → (history (r'.chans ch) ≡ history (r.chans ch) ++ state ∷ [])
            ⊎ ((history (r'.chans ch) ≡ history (r.chans ch)) × IsExcused state ch sub r'.ended))
      → Effect state ch r r'
  go_on r r' sub rest q t p g off_case on_case = elim (Bool-cases (on ch sub)) [
    | inl o ↦
        tried sub (here_on r sub rest q o ∙ ap (λ l. sub ∷ keep (on ch) l) (sym t))
          (ap (keep (on ch)) p) (on_case o)
    | inr o ↦
        apart (ap (keep (on ch)) t ∙ sym (here_off r sub rest q o)) (ap (keep (on ch)) p)
          (off_case o) g
  ]

  -- A pending subscription goes, with its outcome.
  go_out :
      (r r' : Round) (i : ℕ) (sub : Subscription) (others : List Subscription)
      → take_out i r.pending ≡ some (sub, others)
      → r'.todo ≡ r.todo
      → r'.pending ≡ others
      → ((i : ℕ) → contains r.ended i ≡ true → contains r'.ended i ≡ true)
      → (on ch sub ≡ false → history (r'.chans ch) ≡ history (r.chans ch))
      → (on ch sub ≡ true
          → (history (r'.chans ch) ≡ history (r.chans ch) ++ state ∷ [])
            ⊎ ((history (r'.chans ch) ≡ history (r.chans ch)) × IsExcused state ch sub r'.ended))
      → Effect state ch r r'
  go_out r r' i sub others q t p g off_case on_case =
      let (out, _) = take_out-TakenOut ch i r.pending (sub, others) q in
      elim (Bool-cases (on ch sub)) [
        | inl o ↦
            settled sub (ap (keep (on ch)) t)
              (λ s h.
                let (same, none_left) = (out.1 o).0 s h in (same, ap (keep (on ch)) p ∙ none_left))
              (out.1 o).1 (on_case o)
        | inr o ↦ apart (ap (keep (on ch)) t) (ap (keep (on ch)) p ∙ out.0 o) (off_case o) g
      ]

  -- A send on a subscription's channel, seen from this one.
  sent_apart :
      (r : Round) (sub : Subscription)
      → on ch sub ≡ false
      → history ((sent_on state sub r).chans ch) ≡ history (r.chans ch)
  sent_apart r sub o = off_history r.chans sub.ch _ o

  sent_here :
      (r : Round) (sub : Subscription)
      → AreCalm r
      → on ch sub ≡ true
      → history ((sent_on state sub r).chans ch) ≡ history (r.chans ch) ++ state ∷ []
  sent_here r sub calm o = sent_history r.chans sub.ch (calm sub.ch) o

  Happens-Effect :
      (event : Event) (r r' : Round) → AreCalm r → Happens state r event r' → Effect state ch r r'
  Happens-Effect _ r _ calm (sends_now sub rest q z n) =
      go_on r _ sub rest q refl refl (λ i k. k) (sent_apart r sub)
        (λ o. inl (sent_here r sub calm o))
  Happens-Effect _ r _ calm (skips sub rest q z) =
      go_on r _ sub rest q refl refl (λ i k. k) (λ o. refl)
        (λ o. inr (refl, inl (nonzero_negative sub.timeout z)))
  Happens-Effect _ r _ calm (launches sub rest q z) = elim (Bool-cases (on ch sub)) [
    | inl o ↦
        started sub (here_on r sub rest q o) (keep-append (on ch) r.pending (sub ∷ []) ∙ rw o refl)
          refl
    | inr o ↦
        apart (sym (here_off r sub rest q o)) (keep-snoc_off (on ch) r.pending sub o) refl
          (λ i k. k)
  ]
  Happens-Effect _ r _ calm (delivers i sub others q n) =
      go_out r _ i sub others q refl refl (λ i k. k) (sent_apart r sub)
        (λ o. inl (sent_here r sub calm o))
  Happens-Effect _ r _ calm (abandons i sub others q n) =
      go_out r _ i sub others q refl refl (λ i k. k) (λ o. refl) (λ o. inr (refl, inr n))
  Happens-Effect _ r _ calm (expires i sub others q n) =
      go_out r _ i sub others q refl refl (λ i k. k) (λ o. refl)
        (λ o. inr (refl, inl (not_negative sub.timeout n)))
  Happens-Effect _ r _ calm (takes k) =
      apart refl refl
        (elim (Bool-cases (k == ch)) [
          | inl o ↦
              ap history (at_chan r.chans k (receive (r.chans k)) o)
              ∙ (receive_lem (r.chans k) (calm k)).0
              ∙ ap (λ j. history (r.chans j)) (beq→eq k ch o)
          | inr o ↦ off_history r.chans k _ o
        ])
        (λ i k. k)
  Happens-Effect _ r _ calm (leaves i) =
      apart refl refl refl (λ j q. contains-set_add r.ended i j ∙ ground (arith, q))

  sent-AreCalm : (r : Round) (sub : Subscription) → AreCalm r → AreCalm (sent_on state sub r)
  sent-AreCalm r sub calm =
      with_chan_all IsCalm r.chans sub.ch _ calm (send_lem (r.chans sub.ch) state (calm sub.ch)).1

  Happens-AreCalm :
      (event : Event) (r r' : Round) → AreCalm r → Happens state r event r' → AreCalm r'
  Happens-AreCalm _ r _ calm (sends_now sub rest q z n) = sent-AreCalm r sub calm
  Happens-AreCalm _ r _ calm (skips sub rest q z) = calm
  Happens-AreCalm _ r _ calm (launches sub rest q z) = calm
  Happens-AreCalm _ r _ calm (delivers i sub others q n) = sent-AreCalm r sub calm
  Happens-AreCalm _ r _ calm (abandons i sub others q n) = calm
  Happens-AreCalm _ r _ calm (expires i sub others q n) = calm
  Happens-AreCalm _ r _ calm (takes k) =
      with_chan_all IsCalm r.chans k _ calm (receive_lem (r.chans k) (calm k)).1
  Happens-AreCalm _ r _ calm (leaves i) = calm

  -- What an event leaves, against the round before it.
  pub happen-Follows :
      (event : Event) (r r' : Round)
      → AreCalm r
      → happen state event r ≡ some r'
      → Effect state ch r r' × AreCalm r'
  happen-Follows event r r' calm h =
      let happens = happen-Happens state r r' event h in
      (Happens-Effect event r r' calm happens, Happens-AreCalm event r r' calm happens)

  -- How far a broadcast is with a subscriber, after any events.
  pub happen_all-Phase :
      (events : List Event) (r r' : Round) (s : Subscription) (before : List String)
      → AreCalm r
      → happen_all state events r ≡ some r'
      → Phase state ch s before r
      → Phase state ch s before r'
  unfolding happen_all
  happen_all-Phase [] r r' s before calm h phase =
      subst (Phase state ch s before) (some-inj h) phase
  happen_all-Phase (event ∷ events) r r' s before calm h phase =
      elim (Option-cases (happen state event r)) [
        | inl n ↦ absurd (cc (rw (n, happen_all) at h))
        | inr (r'', e) ↦
            let (effect, calm') = happen-Follows event r r'' calm e in
            happen_all-Phase events r'' r' s before calm' (rw (e, happen_all) at h)
              (Effect-Phase state ch s before r r'' effect phase)
      ]
