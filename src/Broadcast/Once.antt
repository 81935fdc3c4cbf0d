-- ===== src/Broadcast/Once.antt =====
-- hooks/broadcast/manager.go, Broadcast: what each subscriber gets of one broadcast.
use mathlib.Core.List.{append_assoc}
use go_fsm.Base.{
  ℕ, ◌≡◌, ◌∙◌, refl, sym, ap, subst, inl, inr, ◌⊎◌, ◌≢◌, String, Bool, true, false, List, [], ◌∷◌,
  ◌++◌, leb, ◌==◌, nat_eq, arith,
}
use go_fsm.Base.Lists.{contains, keep}
use go_fsm.Broadcast.Subscriptions.{Subscription}
use go_fsm.Broadcast.Delivery.{Chan, put, send, take_from, receive, history, Round, is_negative}

-- While receivers wait, the buffer is empty.
abbrev pub IsCalm : Chan → Type 0
IsCalm c = leb 1 c.waiting ≡ true → c.buffer ≡ []

pub append_head : (xs ys : List String) (v : String) → (xs ++ v ∷ []) ++ ys ≡ xs ++ v ∷ ys
append_head [] ys v = refl
append_head (x ∷ xs) ys v = ap (λ l. x ∷ l) (append_head xs ys v)

-- A send adds its value to what was sent.
put_lem :
    (b : Bool) (c : Chan) (v : String)
    → leb 1 c.waiting ≡ b
    → IsCalm c
    → (history (put b c v) ≡ history c ++ v ∷ []) × IsCalm (put b c v)
unfolding put
put_lem true c v h calm = (
  ap (λ l. (c.received ++ v ∷ []) ++ l) (calm h)
      ∙ append_head c.received [] v
      ∙ sym (append_assoc c.received [] (v ∷ []))
      ∙ ap (λ l. (c.received ++ l) ++ v ∷ []) (sym (calm h)),
  λ _. calm h,
)
put_lem false c v h calm =
    (sym (append_assoc c.received c.buffer (v ∷ [])), λ k. absurd (ground (arith, h, k)))

pub send_lem :
    (c : Chan) (v : String)
    → IsCalm c
    → (history (send c v) ≡ history c ++ v ∷ []) × IsCalm (send c v)
unfolding send
send_lem c v calm = put_lem (leb 1 c.waiting) c v refl calm

-- A receiver changes nothing of it.
take_from_lem :
    (buffer : List String) (c : Chan)
    → c.buffer ≡ buffer
    → IsCalm c
    → (history (take_from buffer c) ≡ history c) × IsCalm (take_from buffer c)
unfolding take_from
take_from_lem [] c h calm = (refl, λ _. h)
take_from_lem (v ∷ rest) c h calm = (
  append_head c.received rest v ∙ ap (λ l. c.received ++ l) (sym h),
  λ k. absurd (cc (calm k, h)),
)

pub receive_lem : (c : Chan) → IsCalm c → (history (receive c) ≡ history c) × IsCalm (receive c)
unfolding receive
receive_lem c calm = take_from_lem c.buffer c refl calm

abbrev pub on : ℕ → Subscription → Bool
on ch sub = sub.ch == ch

module _ (state : String) (ch : ℕ) where
  -- A subscriber that may miss a broadcast: one that does not wait for delivery, or that has left.
  abbrev pub IsExcused : Subscription → List ℕ → Type 0
  IsExcused s ended = (is_negative s.timeout ≡ false) ⊎ (contains ended s.ref ≡ true)

  -- How far the broadcast is with the one subscriber of a channel.
  pub data Phase (s : Subscription) (before : List String) (r : Round) : Type 0 where
    waits :
        keep (on ch) r.todo ≡ s ∷ []
        → keep (on ch) r.pending ≡ []
        → history (r.chans ch) ≡ before
        → Phase s before r
    sends :
        keep (on ch) r.todo ≡ []
        → keep (on ch) r.pending ≡ s ∷ []
        → history (r.chans ch) ≡ before
        → Phase s before r
    delivered :
        keep (on ch) r.todo ≡ []
        → keep (on ch) r.pending ≡ []
        → history (r.chans ch) ≡ before ++ state ∷ []
        → Phase s before r
    missed :
        keep (on ch) r.todo ≡ []
        → keep (on ch) r.pending ≡ []
        → history (r.chans ch) ≡ before
        → IsExcused s r.ended
        → Phase s before r

  -- What an event does for the channel.
  pub data Effect (r r' : Round) : Type 0 where
    apart :
        keep (on ch) r'.todo ≡ keep (on ch) r.todo
        → keep (on ch) r'.pending ≡ keep (on ch) r.pending
        → history (r'.chans ch) ≡ history (r.chans ch)
        → ((i : ℕ) → contains r.ended i ≡ true → contains r'.ended i ≡ true)
        → Effect r r'
    started :
        (sub : Subscription)
        → keep (on ch) r.todo ≡ sub ∷ keep (on ch) r'.todo
        → keep (on ch) r'.pending ≡ keep (on ch) r.pending ++ sub ∷ []
        → history (r'.chans ch) ≡ history (r.chans ch)
        → Effect r r'
    tried :
        (sub : Subscription)
        → keep (on ch) r.todo ≡ sub ∷ keep (on ch) r'.todo
        → keep (on ch) r'.pending ≡ keep (on ch) r.pending
        → (history (r'.chans ch) ≡ history (r.chans ch) ++ state ∷ [])
          ⊎ ((history (r'.chans ch) ≡ history (r.chans ch)) × IsExcused sub r'.ended)
        → Effect r r'
    settled :
        (sub : Subscription)
        → keep (on ch) r'.todo ≡ keep (on ch) r.todo
        → ((s : Subscription)
            → keep (on ch) r.pending ≡ s ∷ []
            → (sub ≡ s) × (keep (on ch) r'.pending ≡ []))
        → keep (on ch) r.pending ≢ []
        → (history (r'.chans ch) ≡ history (r.chans ch) ++ state ∷ [])
          ⊎ ((history (r'.chans ch) ≡ history (r.chans ch)) × IsExcused sub r'.ended)
        → Effect r r'

  IsExcused-later :
      (s : Subscription) (ended ended' : List ℕ)
      → ((i : ℕ) → contains ended i ≡ true → contains ended' i ≡ true)
      → IsExcused s ended
      → IsExcused s ended'
  IsExcused-later s ended ended' grows (inl h) = inl h
  IsExcused-later s ended ended' grows (inr h) = inr (grows s.ref h)

  -- The end of the one subscriber's part.
  finished :
      (s sub : Subscription) (before : List String) (r r' : Round)
      → sub ≡ s
      → keep (on ch) r'.todo ≡ []
      → keep (on ch) r'.pending ≡ []
      → history (r.chans ch) ≡ before
      → (history (r'.chans ch) ≡ history (r.chans ch) ++ state ∷ [])
        ⊎ ((history (r'.chans ch) ≡ history (r.chans ch)) × IsExcused sub r'.ended)
      → Phase s before r'
  finished s sub before r r' q t p h (inl sent) = delivered t p (sent ∙ ap (λ l. l ++ state ∷ []) h)
  finished s sub before r r' q t p h (inr (kept, excused)) =
      missed t p (kept ∙ h) (subst (λ (s : Subscription). IsExcused s r'.ended) q excused)

  pub Effect-Phase :
      (s : Subscription) (before : List String) (r r' : Round)
      → Effect r r'
      → Phase s before r
      → Phase s before r'
  Effect-Phase s before r r' (apart t p h g) (waits a b c) = waits (t ∙ a) (p ∙ b) (h ∙ c)
  Effect-Phase s before r r' (apart t p h g) (sends a b c) = sends (t ∙ a) (p ∙ b) (h ∙ c)
  Effect-Phase s before r r' (apart t p h g) (delivered a b c) = delivered (t ∙ a) (p ∙ b) (h ∙ c)
  Effect-Phase s before r r' (apart t p h g) (missed a b c x) =
      missed (t ∙ a) (p ∙ b) (h ∙ c) (IsExcused-later s r.ended r'.ended g x)
  Effect-Phase s before r r' (started sub t p h) (waits a b c) =
      sends (cc (t, a)) (p ∙ ap (λ l. l ++ sub ∷ []) b ∙ (cc (t, a))) (h ∙ c)
  Effect-Phase s before r r' (started sub t p h) (sends a b c) = absurd (cc (t, a))
  Effect-Phase s before r r' (started sub t p h) (delivered a b c) = absurd (cc (t, a))
  Effect-Phase s before r r' (started sub t p h) (missed a b c x) = absurd (cc (t, a))
  Effect-Phase s before r r' (tried sub t p h) (waits a b c) =
      finished s sub before r r' (cc (t, a)) (cc (t, a)) (p ∙ b) c h
  Effect-Phase s before r r' (tried sub t p h) (sends a b c) = absurd (cc (t, a))
  Effect-Phase s before r r' (tried sub t p h) (delivered a b c) = absurd (cc (t, a))
  Effect-Phase s before r r' (tried sub t p h) (missed a b c x) = absurd (cc (t, a))
  Effect-Phase s before r r' (settled sub t one n h) (sends a b c) =
      finished s sub before r r' (one s b).0 (t ∙ a) (one s b).1 c h
  Effect-Phase s before r r' (settled sub t one n h) (waits a b c) = absurd (n b)
  Effect-Phase s before r r' (settled sub t one n h) (delivered a b c) = absurd (n b)
  Effect-Phase s before r r' (settled sub t one n h) (missed a b c x) = absurd (n b)
