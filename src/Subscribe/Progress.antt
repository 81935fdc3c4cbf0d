-- ===== src/Subscribe/Progress.antt =====
-- fsm.go, Subscribe: that subscribers who receive let every transition and every broadcast go on.
use go_fsm.Base.{
  ℕ, ◌≡◌, ◌∙◌, refl, sym, ap, subst, Bool, true, false, some, List, [], ◌∷◌, nat_eq, beq_refl,
}
use go_fsm.Base.Lists.{All}
use go_fsm.Broadcast.Subscriptions.{Subscription}
use go_fsm.Broadcast.Delivery.{
  is_ready, send, receive, Event, visit, deliver, abandon, expire, taken, gone, settle_at,
  with_chan, visit_sub, settle, happen, both_empty,
}
use go_fsm.Broadcast.Capacity.{
  IsWithin, AreWithin, receive-IsWithin, happen-AreWithin, receive-is_ready, sent-AreWithin,
}
use go_fsm.Broadcast.Happens.{with_chan_all}
use go_fsm.Broadcast.Guarantee.{take_out_head}
use go_fsm.Broadcast.Releases.{visit_sub_rest}
use go_fsm.Subscribe.System.{
  System, Writer, idle, stored, sending, can_write, is_stored, is_sending, round_of, with_round,
  Step, join, greet, give_up, give_up_nil, commit, start, inside, finish, drop, advance, run,
  subscriptions,
}
use go_fsm.Subscribe.Advances.{greet_sent}
use go_fsm.Subscribe.Capacity.{run-AreWithin}

-- A goroutine of the program goes on, but not because it gives up, or a receiver comes.
abbrev pub goes_forward_inside : Event → Bool
goes_forward_inside visit = true
goes_forward_inside (deliver _) = true
goes_forward_inside (taken _) = true
goes_forward_inside (abandon _) = false
goes_forward_inside (expire _) = false
goes_forward_inside (gone _) = false

abbrev pub goes_forward : Step → Bool
goes_forward (greet _) = true
goes_forward start = true
goes_forward (inside event) = goes_forward_inside event
goes_forward finish = true
goes_forward (join _ _) = false
goes_forward (give_up _) = false
goes_forward (give_up_nil _) = false
goes_forward (commit _) = false
goes_forward (drop _) = false

-- The system goes on to where a transition can have the write lock.
Clears : System → Type 0
Clears s =
    (steps : List Step) × (s' : System) × (run steps s ≡ some s')
    × (can_write s' ≡ true)
    × All (λ step. goes_forward step ≡ true) steps

one_more :
    (step : Step) (s s' : System)
    → goes_forward step ≡ true
    → advance step s ≡ some s'
    → Clears s'
    → Clears s
unfolding Clears run
one_more step s s' g h (steps, end, r, w, a) = (step ∷ steps, end, rw (h, run) r, w, (g, a))

-- A receiver comes to a channel.
abbrev received : ℕ → System → System
received ch s =
    with_round s (record (round_of s) { chans = with_chan s.chans ch (receive (s.chans ch)) })

-- A goroutine of the broadcast delivers.
abbrev delivered_to : Subscription → List Subscription → System → System
delivered_to sub others s = with_round s (record (round_of s) {
  pending = others;
  chans = with_chan s.chans sub.ch (send (s.chans sub.ch) s.target);
})

received_lem : (ch : ℕ) (s : System) → advance (inside (taken ch)) s ≡ some (received ch s)
unfolding advance happen
received_lem ch s = refl

received-is_ready :
    (ch : ℕ) (s : System) → AreWithin s.chans → is_ready ((received ch s).chans ch) ≡ true
received-is_ready ch s w = rw (beq_refl ch) (receive-is_ready (s.chans ch) (w ch))

received-AreWithin : (ch : ℕ) (s : System) → AreWithin s.chans → AreWithin (received ch s).chans
received-AreWithin ch s w =
    with_chan_all IsWithin s.chans ch _ w (receive-IsWithin (s.chans ch) (w ch))

delivered_to_lem :
    (sub : Subscription) (others : List Subscription) (s : System)
    → s.pending ≡ sub ∷ others
    → is_ready (s.chans sub.ch) ≡ true
    → advance (inside (deliver sub.ref)) s ≡ some (delivered_to sub others s)
unfolding advance happen settle
delivered_to_lem sub others s q n =
    rw (take_out_head sub others s.pending q, advance, happen, settle_at) (rw n refl)

-- No call of Subscribe waits, and no channel has too much.
abbrev IsOpen : System → Type 0
IsOpen s = (s.greeting ≡ []) × (s.stuck ≡ []) × AreWithin s.chans

-- A broadcast is under way.
abbrev IsSending : System → Type 0
IsSending s = (is_sending s.writer ≡ true) × IsOpen s

open_can_write : (s : System) → IsOpen s → can_write (record s { writer = idle }) ≡ true
open_can_write s (g, k, w) = ap (λ l. both_empty l s.stuck) g ∙ ap (both_empty []) k

pending-Clears :
    (pending : List Subscription) (s : System)
    → s.pending ≡ pending
    → s.todo ≡ []
    → IsSending s
    → Clears s
unfolding Clears advance run
pending-Clears [] s p t (sends, opens) =
    let over : both_empty s.todo s.pending ≡ true =
      ap (λ l. both_empty l s.pending) t ∙ ap (both_empty []) p in
    one_more finish s (record s { writer = idle }) refl (rw (sends, advance) (rw over refl))
      ([], record s { writer = idle }, refl, open_can_write s opens, tt)
pending-Clears (sub ∷ rest) s p t (sends, (g, k, w)) =
    let s1 = received sub.ch s in
    let n = received-is_ready sub.ch s w in
    let w1 = received-AreWithin sub.ch s w in
    one_more (inside (taken sub.ch)) s s1 refl (received_lem sub.ch s) (
      one_more (inside (deliver sub.ref)) s1 (delivered_to sub rest s1) refl
        (delivered_to_lem sub rest s1 p n)
        (pending-Clears rest (delivered_to sub rest s1) refl t
          (sends, (g, k, sent-AreWithin s1.chans sub.ch s.target n w1))))

visited_lem :
    (sub : Subscription) (rest : List Subscription) (s : System)
    → s.todo ≡ sub ∷ rest
    → happen s.target visit (round_of s) ≡ some (visit_sub s.target (round_of s) sub rest)
unfolding happen
visited_lem sub rest s t = rw t refl

todo-Clears : (todo : List Subscription) (s : System) → s.todo ≡ todo → IsSending s → Clears s
unfolding advance
todo-Clears [] s t sends = pending-Clears s.pending s refl t sends
todo-Clears (sub ∷ rest) s t (sends, (g, k, w)) =
    let r = visit_sub s.target (round_of s) sub rest in
    let e = visited_lem sub rest s t in
    one_more (inside visit) s (with_round s r) refl (rw (e, advance) refl) (
      todo-Clears rest (with_round s r) (visit_sub_rest s.target (round_of s) sub rest).0
        (sends, (g, k, happen-AreWithin s.target visit (round_of s) r e w)))

open-Clears : (writer : Writer) (s : System) → s.writer ≡ writer → IsOpen s → Clears s
unfolding Clears run advance
open-Clears idle s q opens = (
  [],
  s,
  refl,
  subst (λ (w : _). can_write (record s { writer = w }) ≡ true) (sym q) (open_can_write s opens),
  tt,
)
open-Clears sending s q opens = todo-Clears s.todo s refl (ap is_sending q, opens)
open-Clears stored s q opens =
    let s1 = record s {
      todo = subscriptions s.manager.subscribers;
      pending = [];
      writer = sending;
    } in
    one_more start s s1 refl (rw (ap is_stored q, advance) refl)
      (todo-Clears s1.todo s1 refl (refl, opens))

greet_sent_lem :
    (sub : Subscription) (others : List Subscription) (s : System)
    → s.greeting ≡ sub ∷ others
    → is_ready (s.chans sub.ch) ≡ true
    → advance (greet sub.ref) s ≡ some (greet_sent sub others s)
unfolding advance
greet_sent_lem sub others s q n = rw (take_out_head sub others s.greeting q, advance) (rw n refl)

greeting-Clears :
    (greeting : List Subscription) (s : System)
    → s.greeting ≡ greeting
    → s.stuck ≡ []
    → AreWithin s.chans
    → Clears s
greeting-Clears [] s g k w = open-Clears s.writer s refl (g, k, w)
greeting-Clears (sub ∷ rest) s g k w =
    let s1 = received sub.ch s in
    let n = received-is_ready sub.ch s w in
    one_more (inside (taken sub.ch)) s s1 refl (received_lem sub.ch s) (
      one_more (greet sub.ref) s1 (greet_sent sub rest s1) refl (greet_sent_lem sub rest s1 g n) (
        greeting-Clears rest (greet_sent sub rest s1) refl k
          (sent-AreWithin s1.chans sub.ch s.current n (received-AreWithin sub.ch s w))))

-- After any run of a system whose channels hold no more than their capacity, and unless a call of
-- Subscribe without a channel waits then, steps of the broadcast, sends and receivers that come,
-- without a new call, a context that ends or a timeout, can lead to where a transition can have the
-- write lock.
pub run-can_write :
    (before : List Step) (s s' : System)
    → AreWithin s.chans
    → run before s ≡ some s'
    → s'.stuck ≡ []
    → (steps : List Step) × (s'' : System) × (run steps s' ≡ some s'')
      × (can_write s'' ≡ true)
      × All (λ step. goes_forward step ≡ true) steps
unfolding Clears
run-can_write before s s' w h k =
    greeting-Clears s'.greeting s' refl k (run-AreWithin before s s' w h)
