-- ===== src/Broadcast/Happens.antt =====
-- hooks/broadcast/manager.go, Broadcast: the events that can come, as a relation. The results about
-- events are by its cases.
use go_fsm.Base.{
  some-inj, if-some, ℕ, ◌≡◌, subst, inl, inr, String, true, false, some, List, [], ◌∷◌, ◌++◌, ◌==◌,
  nat_eq, Bool-cases, Option-cases, List-cases,
}
use go_fsm.Base.Lists.{contains, set_add}
use go_fsm.Broadcast.Subscriptions.{Subscription}
use go_fsm.Broadcast.Delivery.{
  Chan, is_ready, send, receive, Round, Event, visit, deliver, abandon, expire, taken, gone,
  is_zero, is_positive, with_chan, take_out, visit_sub, settle, settle_at, happen,
}

-- What holds of every channel holds still where one is changed to one that it holds of.
pub with_chan_all :
    (P : Chan → Type 0) (chans : ℕ → Chan) (k : ℕ) (c : Chan)
    → ((j : ℕ) → P (chans j))
    → P c
    → (j : ℕ) → P (with_chan chans k c j)
with_chan_all P chans k c all one j = elim (Bool-cases (k == j)) [
  | inl h ↦ rw h one
  | inr h ↦ rw h (all j)
]

-- A round in which a state is sent on the channel of a subscription.
abbrev pub sent_on : String → Subscription → Round → Round
sent_on state sub r = record r { chans = with_chan r.chans sub.ch (send (r.chans sub.ch) state) }

pub data Happens (state : String) (r : Round) : Event → Round → Type 0 where
  -- The loop: a best-effort send, one that is skipped, and a goroutine.
  sends_now :
      (sub : Subscription) (rest : List Subscription)
      → r.todo ≡ sub ∷ rest
      → is_zero sub.timeout ≡ true
      → is_ready (r.chans sub.ch) ≡ true
      → Happens state r visit (record (sent_on state sub r) { todo = rest })
  skips :
      (sub : Subscription) (rest : List Subscription)
      → r.todo ≡ sub ∷ rest
      → is_zero sub.timeout ≡ true
      → Happens state r visit (record r { todo = rest })
  launches :
      (sub : Subscription) (rest : List Subscription)
      → r.todo ≡ sub ∷ rest
      → is_zero sub.timeout ≡ false
      → Happens state r visit (record r { todo = rest; pending = r.pending ++ sub ∷ [] })
  -- A goroutine's `select`.
  delivers :
      (i : ℕ) (sub : Subscription) (others : List Subscription)
      → take_out i r.pending ≡ some (sub, others)
      → is_ready (r.chans sub.ch) ≡ true
      → Happens state r (deliver i) (record (sent_on state sub r) { pending = others })
  abandons :
      (i : ℕ) (sub : Subscription) (others : List Subscription)
      → take_out i r.pending ≡ some (sub, others)
      → contains r.ended sub.ref ≡ true
      → Happens state r (abandon i) (record r { pending = others })
  expires :
      (i : ℕ) (sub : Subscription) (others : List Subscription)
      → take_out i r.pending ≡ some (sub, others)
      → is_positive sub.timeout ≡ true
      → Happens state r (expire i) (record r { pending = others })
  -- The surroundings.
  takes :
      (k : ℕ)
      → Happens state r (taken k) (record r { chans = with_chan r.chans k (receive (r.chans k)) })
  leaves : (i : ℕ) → Happens state r (gone i) (record r { ended = set_add r.ended i })

module _ (state : String) (r r' : Round) where
  visit_sub-Happens :
      (sub : Subscription) (rest : List Subscription)
      → r.todo ≡ sub ∷ rest
      → Happens state r visit (visit_sub state r sub rest)
  unfolding visit_sub
  visit_sub-Happens sub rest q = elim (Bool-cases (is_zero sub.timeout)) [
    | inr z ↦ rw z (launches sub rest q z)
    | inl z ↦ elim (Bool-cases (is_ready (r.chans sub.ch))) [
      | inl n ↦ rw z (rw n (sends_now sub rest q z n))
      | inr n ↦ rw z (rw n (skips sub rest q z))
    ]
  ]

  -- A pending subscription whose `select` is settled.
  Settled : Event → ℕ → Type 0
  Settled event i =
      (sub : Subscription) × (others : List Subscription) × (take_out i r.pending
        ≡ some (sub, others))
      × (settle state event r sub others ≡ some r')

  settle_at-Settled :
      (event : Event) (i : ℕ) → settle_at state event i r ≡ some r' → Settled event i
  unfolding Settled
  settle_at-Settled event i h = elim (Option-cases (take_out i r.pending)) [
    | inl n ↦ absurd (cc (rw (n, settle_at) at h))
    | inr ((sub, others), e) ↦ (sub, others, e, rw (e, settle_at) at h)
  ]

  pub happen-Happens : (event : Event) → happen state event r ≡ some r' → Happens state r event r'
  unfolding happen Settled settle
  happen-Happens visit h = elim (List-cases r.todo) [
    | inl n ↦ absurd (cc (rw n at h))
    | inr (sub, rest, e) ↦
        subst (Happens state r visit) (some-inj (rw e at h)) (visit_sub-Happens sub rest e)
  ]
  happen-Happens (deliver i) h =
      let (sub, others, e, g) = settle_at-Settled (deliver i) i h in
      let (t, q) = if-some (is_ready (r.chans sub.ch)) _ r' g in
      subst (Happens state r (deliver i)) q (delivers i sub others e t)
  happen-Happens (abandon i) h =
      let (sub, others, e, g) = settle_at-Settled (abandon i) i h in
      let (t, q) = if-some (contains r.ended sub.ref) _ r' g in
      subst (Happens state r (abandon i)) q (abandons i sub others e t)
  happen-Happens (expire i) h =
      let (sub, others, e, g) = settle_at-Settled (expire i) i h in
      let (t, q) = if-some (is_positive sub.timeout) _ r' g in
      subst (Happens state r (expire i)) q (expires i sub others e t)
  happen-Happens (taken k) h = subst (Happens state r (taken k)) (some-inj h) (takes k)
  happen-Happens (gone i) h = subst (Happens state r (gone i)) (some-inj h) (leaves i)
