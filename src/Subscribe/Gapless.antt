-- ===== src/Subscribe/Gapless.antt =====
-- fsm.go, Subscribe: what a subscriber gets, over a whole run of the system.
use mathlib.Core.List.{append-nil}
use go_fsm.Base.{
  some-inj, inl, inr, ℕ, ◌<◌, ◌≡◌, ◌∙◌, refl, sym, ap, subst, String, true, false, some, List, [],
  ◌∷◌, ◌++◌, nat_eq, Option-cases, Bool-cases, beq_refl,
}
use go_fsm.Base.Int.{ℤ}
use go_fsm.Base.Lists.{All, contains, keep-append}
use go_fsm.Context.{Ctx}
use go_fsm.Broadcast.Subscriptions.{Subscription, subscription_of, chans_after}
use go_fsm.Broadcast.Delivery.{history, is_negative}
use go_fsm.Broadcast.Once.{IsCalm, append_head, on}
use go_fsm.Subscribe.System.{
  System, Writer, idle, stored, sending, can_read, subscriptions, Step, join, greet, give_up,
  give_up_nil, commit, start, inside, finish, drop, joined, advance, run, commits,
}
use go_fsm.Subscribe.Advances.{advance-Advances}
use go_fsm.Subscribe.Alone.{IsKeyed, here, here-insert_on, insert-IsKeyed}
use go_fsm.Subscribe.Served.{
  Heard, greeted, got, skipped, touches, tell, IsHeld, Stage, greets, rests, stores, sends,
}
use go_fsm.Subscribe.Kept.{Left}
use go_fsm.Subscribe.Stages.{Advances-Left}

-- A channel of the client's that no subscription has or had, while no broadcast is on it.
pub record IsFree (ch : ℕ) (s : System) : Type 0 where
  pub keyed : IsKeyed s.manager.subscribers
  pub unstored : here ch (subscriptions s.manager.subscribers) ≡ []
  pub unarmed : here ch s.armed ≡ []
  pub ungreeted : here ch s.greeting ≡ []
  pub unvisited : here ch s.todo ≡ []
  pub unsent : here ch s.pending ≡ []
  pub old : ch < s.manager.made.next_chan
  pub unended : contains s.manager.ended s.manager.next_ref ≡ false
  pub calm : (k : ℕ) → IsCalm (s.chans k)

-- The subscription that Subscribe makes next.
abbrev pub next_subscription : ℕ → System → Subscription
next_subscription ch s = record {
  ref = s.manager.next_ref;
  ch = ch;
  timeout = s.broadcast_timeout;
  external_channel = true;
}

-- No call of Subscribe is on the channel, and no transition is under way.
abbrev pub IsQuiet : ℕ → System → Type 0
IsQuiet ch s = (can_read s.writer ≡ true) × (here ch s.greeting ≡ [])

can_read-idle : (w : Writer) → can_read w ≡ true → w ≡ idle
can_read-idle idle h = refl
can_read-idle stored h = absurd (cc)
can_read-idle sending h = absurd (cc)

here-added :
    (ch : ℕ) (subs : List Subscription) (sub : Subscription)
    → here ch subs ≡ []
    → sub.ch ≡ ch
    → here ch (subs ++ sub ∷ []) ≡ sub ∷ []
here-added ch subs sub h q = keep-append (on ch) subs (sub ∷ []) ∙ rw h (rw (q, beq_refl ch) refl)

module _ (ctx : Ctx) (ch : ℕ) where
  joined-IsHeld :
      (s : System) → IsFree ch s → IsHeld (next_subscription ch s) (joined ctx (some ch) s)
  unfolding joined subscription_of chans_after
  joined-IsHeld s free = record {
    keyed = insert-IsKeyed (next_subscription ch s) s.manager.subscribers free.keyed;
    stored_once =
        here-insert_on ch (next_subscription ch s) s.manager.subscribers free.keyed refl
          free.unstored;
    armed_once = here-added ch s.armed (next_subscription ch s) free.unarmed refl;
    old = free.old;
    live = free.unended;
    calm = free.calm;
  }

  joined-Stage :
      (s : System)
      → IsFree ch s
      → can_read s.writer ≡ true
      → Stage
          (next_subscription ch s)
          (history (s.chans ch))
          (s.current ∷ [])
          (joined ctx (some ch) s)
  unfolding joined subscription_of chans_after
  joined-Stage s free h =
      greets (can_read-idle s.writer h)
        (here-added ch s.greeting (next_subscription ch s) free.ungreeted refl) free.unvisited
        free.unsent refl refl

module _ (me : Subscription) (before : List String) where
  -- The states told, once all steps have come.
  tell_all : List Step → List String → List String
  tell_all [] told = told
  tell_all (step ∷ steps) told = tell_all steps (tell step told)

  run-Left :
      (steps : List Step) (told : List String) (s s' : System)
      → All (λ step. touches me.ch me.ref step ≡ false) steps
      → run steps s ≡ some s'
      → Left me before told s
      → Left me before (tell_all steps told) s'
  unfolding run tell_all
  run-Left [] told s s' n h left = subst (Left me before told) (some-inj h) left
  run-Left (step ∷ steps) told s s' n h left = elim (Option-cases (advance step s)) [
    | inl e ↦ absurd (cc (rw (e, run) at h))
    | inr (s'', e) ↦
        run-Left steps (tell step told) s'' s' n.1 (rw (e, run) at h) (
          Advances-Left me before step told s s'' n.0 (advance-Advances step s s'' e) left.0 left.1)
  ]

  tell_all-commits :
      (steps : List Step) (told : List String) → tell_all steps told ≡ told ++ commits steps
  unfolding tell_all
  tell_all-commits [] told = sym (append-nil told)
  tell_all-commits (commit to ∷ steps) told =
      tell_all-commits steps (told ++ to ∷ []) ∙ append_head told (commits steps) to
  tell_all-commits (join _ _ ∷ steps) told = tell_all-commits steps told
  tell_all-commits (greet _ ∷ steps) told = tell_all-commits steps told
  tell_all-commits (give_up _ ∷ steps) told = tell_all-commits steps told
  tell_all-commits (give_up_nil _ ∷ steps) told = tell_all-commits steps told
  tell_all-commits (start ∷ steps) told = tell_all-commits steps told
  tell_all-commits (inside _ ∷ steps) told = tell_all-commits steps told
  tell_all-commits (finish ∷ steps) told = tell_all-commits steps told
  tell_all-commits (drop _ ∷ steps) told = tell_all-commits steps told

  Stage-quiet :
      (told : List String) (s : System)
      → IsQuiet me.ch s
      → Stage me before told s
      → (heard : List String) × Heard me.timeout told heard
        × (history (s.chans me.ch) ≡ before ++ heard)
  Stage-quiet told s q (rests {heard} a b e f t k) = (heard, t, k)
  Stage-quiet told s q (greets a b e f t k) = absurd (cc (b, q.1))
  Stage-quiet told s q (stores a b e f t v k) = absurd (cc (q.0, ap can_read a))
  Stage-quiet told s q (sends a b t v p) = absurd (cc (q.0, ap can_read a))

pub Heard-all :
    (d : ℤ) {told heard : List String} → is_negative d ≡ true → Heard d told heard → heard ≡ told
Heard-all d h (greeted state) = refl
Heard-all d h (got state v) = ap (λ l. l ++ state ∷ []) (Heard-all d h v)
Heard-all d h (skipped state n v) = absurd (cc)

-- How far the system is with the subscriber after a run.
pub run-Stage :
    (ctx : Ctx) (ch : ℕ) (steps : List Step) (s s' : System)
    → IsFree ch s
    → All (λ step. touches ch s.manager.next_ref step ≡ false) steps
    → run (join ctx (some ch) ∷ steps) s ≡ some s'
    → Stage (next_subscription ch s) (history (s.chans ch)) (s.current ∷ commits steps) s'
unfolding run advance
run-Stage ctx ch steps s s' free n h = elim (Bool-cases (can_read s.writer)) [
  | inr w ↦ absurd (cc (rw (w, run, advance) at h))
  | inl w ↦
      let me = next_subscription ch s in
      let before = history (s.chans ch) in
      subst (λ told. Stage me before told s') (tell_all-commits me before steps (s.current ∷ []))
        (run-Left me before steps (s.current ∷ []) (joined ctx (some ch) s) s' n
          (rw (w, run, advance) at h) (joined-IsHeld ctx ch s free, joined-Stage ctx ch s free w)).1
]

-- A channel that Subscribe is given gets, first, the state that the machine is in, and then, in
-- order, states that are stored, of which it misses some only where the machine's broadcast timeout
-- is not negative; this holds wherever no transition is under way and no call of Subscribe waits on
-- the channel, which no subscription had, no other takes, and whose context does not end.
pub run-heard :
    (ctx : Ctx) (ch : ℕ) (steps : List Step) (s s' : System)
    → IsFree ch s
    → All (λ step. touches ch s.manager.next_ref step ≡ false) steps
    → run (join ctx (some ch) ∷ steps) s ≡ some s'
    → IsQuiet ch s'
    → (heard : List String) × Heard s.broadcast_timeout (s.current ∷ commits steps) heard
      × (history (s'.chans ch) ≡ history (s.chans ch) ++ heard)
run-heard ctx ch steps s s' free n h quiet =
    Stage-quiet (next_subscription ch s) (history (s.chans ch)) (s.current ∷ commits steps) s' quiet
      (run-Stage ctx ch steps s s' free n h)

-- Where the machine's broadcast timeout is negative, a channel that Subscribe is given, and that no
-- subscription has or had, gets the state that the machine is in and then every state that a
-- transition or SetState stores, in order and each exactly once, whatever else subscribes,
-- receives, leaves and is removed meanwhile; this holds wherever no transition is under way and no
-- call of Subscribe waits on the channel, while no other subscription takes the channel and its
-- context does not end.
pub run-gapless :
    (ctx : Ctx) (ch : ℕ) (steps : List Step) (s s' : System)
    → IsFree ch s
    → is_negative s.broadcast_timeout ≡ true
    → All (λ step. touches ch s.manager.next_ref step ≡ false) steps
    → run (join ctx (some ch) ∷ steps) s ≡ some s'
    → IsQuiet ch s'
    → history (s'.chans ch) ≡ history (s.chans ch) ++ s.current ∷ commits steps
run-gapless ctx ch steps s s' free d n h quiet =
    let (heard, v, k) = run-heard ctx ch steps s s' free n h quiet in
    k ∙ ap (λ l. history (s.chans ch) ++ l) (Heard-all s.broadcast_timeout d v)
