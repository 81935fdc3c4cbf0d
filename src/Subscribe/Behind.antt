-- ===== src/Subscribe/Behind.antt =====
-- fsm.go, Subscribe: what a subscriber has got at any moment, also while a transition is under way.
use mathlib.Core.List.{append_assoc}
use go_fsm.Base.{
  inl, inr, ℕ, ◌≡◌, ◌⊎◌, ◌∙◌, sym, ap, String, true, false, some, List, [], ◌∷◌, ◌++◌,
}
use go_fsm.Base.Lists.{All}
use go_fsm.Context.{Ctx}
use go_fsm.Broadcast.Subscriptions.{Subscription}
use go_fsm.Broadcast.Delivery.{history, is_negative}
use go_fsm.Broadcast.Once.{Phase, waits, sends, delivered, missed}
use go_fsm.Subscribe.System.{System, round_of, Step, join, run, commits}
use go_fsm.Subscribe.Served.{touches, Stage, greets, rests, stores, sends}
use go_fsm.Subscribe.Gapless.{IsFree, next_subscription, run-Stage, Heard-all}

-- All of the states are there, or all but the last.
abbrev pub IsBehind : List String → List String → List String → Type 0
IsBehind before got told =
    (got ≡ before ++ told) ⊎ ((last : String) × (got ++ last ∷ [] ≡ before ++ told))

module _ (me : Subscription) (before : List String) where
  -- Before its last state is sent.
  all_but :
      (state : String) (heard told' told got : List String)
      → told ≡ told' ++ state ∷ []
      → heard ≡ told'
      → got ≡ before ++ heard
      → IsBehind before got told
  all_but state heard told' told got t e k = inr (
    state,
    ap (λ l. l ++ state ∷ []) (k ∙ ap (λ l. before ++ l) e)
        ∙ append_assoc before told' (state ∷ [])
        ∙ ap (λ l. before ++ l) (sym t),
  )

  Phase-IsBehind :
      (s : System) (told heard told' : List String)
      → told ≡ told' ++ s.target ∷ []
      → heard ≡ told'
      → Phase s.target me.ch me (before ++ heard) (round_of s)
      → IsBehind before (history (s.chans me.ch)) told
  Phase-IsBehind s told heard told' t e (waits a b c) = all_but s.target heard told' told _ t e c
  Phase-IsBehind s told heard told' t e (sends a b c) = all_but s.target heard told' told _ t e c
  Phase-IsBehind s told heard told' t e (delivered a b c) = inl (
      c
      ∙ ap (λ l. (before ++ l) ++ s.target ∷ []) e
      ∙ append_assoc before told' (s.target ∷ [])
      ∙ ap (λ l. before ++ l) (sym t))
  Phase-IsBehind s told heard told' t e (missed a b c x) = all_but s.target heard told' told _ t e c

  Stage-IsBehind :
      (told : List String) (s : System)
      → is_negative me.timeout ≡ true
      → Stage me before told s
      → IsBehind before (history (s.chans me.ch)) told
  Stage-IsBehind told s d (greets a b e f t k) =
      inr (s.current, ap (λ l. l ++ s.current ∷ []) k ∙ ap (λ l. before ++ l) (sym t))
  Stage-IsBehind told s d (rests a b e f v k) =
      inl (k ∙ ap (λ l. before ++ l) (Heard-all me.timeout d v))
  Stage-IsBehind told s d (stores {told'} {heard} a b e f t v k) =
      all_but s.target heard told' told _ t (Heard-all me.timeout d v) k
  Stage-IsBehind told s d (sends {told'} {heard} a b t v p) =
      Phase-IsBehind s told heard told' t (Heard-all me.timeout d v) p

-- Where the machine's broadcast timeout is negative, at every moment, whatever is under way, a
-- channel that Subscribe was given, and that no subscription had before, has got the state that the
-- machine was in and then every state stored since, in order and each exactly once, but for at most
-- the last of these, while no other subscription takes the channel and its context does not end.
pub run-IsBehind :
    (ctx : Ctx) (ch : ℕ) (steps : List Step) (s s' : System)
    → IsFree ch s
    → is_negative s.broadcast_timeout ≡ true
    → All (λ step. touches ch s.manager.next_ref step ≡ false) steps
    → run (join ctx (some ch) ∷ steps) s ≡ some s'
    → IsBehind (history (s.chans ch)) (history (s'.chans ch)) (s.current ∷ commits steps)
run-IsBehind ctx ch steps s s' free d n h =
    Stage-IsBehind (next_subscription ch s) (history (s.chans ch)) (s.current ∷ commits steps) s' d
      (run-Stage ctx ch steps s s' free n h)
