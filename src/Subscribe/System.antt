-- ===== src/Subscribe/System.antt =====
-- fsm.go, Subscribe, and what goes on around it: a machine whose registry has the machine's
-- broadcast hook, its transitions, its subscribers and the contexts that they bring. Each event is
-- one step of one goroutine, between two points at which it can wait.
use go_fsm.Base.{
  ℕ, String, Bool, true, false, not, ◌&&◌, Option, none, some, List, [], ◌∷◌, ◌++◌, if◌then◌else◌,
  nat_eq,
}
use go_fsm.Base.Int.{ℤ}
use go_fsm.Base.Lists.{contains}
use go_fsm.Base.Maps.{Map}
use go_fsm.Context.{Ctx}
use go_fsm.Broadcast.Subscriptions.{
  Subscription, Manager, with_custom_channel, with_timeout, get_state_chan, remove_locked,
}
use go_fsm.Broadcast.Delivery.{
  Chan, is_ready, send, Round, Event, take_out, with_chan, happen, both_empty, is_over,
}

-- Where the goroutine is that has the write lock: none has it; the state is stored and the hooks
-- before the broadcast run; Broadcast has the manager's mutex.
pub data Writer : Type 0 where
  idle : Writer
  stored : Writer
  sending : Writer

-- The machine and its manager. `greeting` are the calls of Subscribe that wait to send the current
-- state, `stuck` those whose channel is nil: all of them hold the read lock. `armed` are the
-- subscriptions whose AfterFunc has yet to run; `target` is what the hooks were given as `to`.
pub record System : Type 0 where
  pub current : String
  pub broadcast_timeout : ℤ
  pub manager : Manager
  pub greeting : List Subscription
  pub stuck : List Subscription
  pub armed : List Subscription
  pub writer : Writer
  pub target : String
  pub todo : List Subscription
  pub pending : List Subscription
  pub chans : ℕ → Chan

pub data Step : Type 0 where
  join : Ctx → Option ℕ → Step
  greet : ℕ → Step
  give_up : ℕ → Step
  give_up_nil : ℕ → Step
  commit : String → Step
  start : Step
  inside : Event → Step
  finish : Step
  drop : ℕ → Step

-- The subscriptions that iterSubscribers goes through.
abbrev pub subscriptions : Map ℕ Subscription → List Subscription
subscriptions [] = []
subscriptions ((_, sub) ∷ m) = sub ∷ subscriptions m

abbrev pub round_of : System → Round
round_of s = record { todo = s.todo; pending = s.pending; chans = s.chans; ended = s.manager.ended }

abbrev pub with_round : System → Round → System
with_round s r = record s {
  todo = r.todo;
  pending = r.pending;
  chans = r.chans;
  manager = record s.manager { ended = r.ended };
}

abbrev pub new_chan : ℕ → Chan
new_chan capacity = record { capacity = capacity; buffer = []; waiting = 0; received = [] }

-- Subscribe comes to its `select`. On a nil channel only the context can wake it; the manager has
-- made a channel of its own then.
unfoldable pub select_on : Option ℕ → Option Subscription → System → System
select_on c none s = s
select_on none (some sub) s = record s {
  stuck = s.stuck ++ sub ∷ [];
  armed = s.armed ++ sub ∷ [];
  chans = with_chan s.chans sub.ch (new_chan 1);
}
select_on (some _) (some sub) s = record s {
  greeting = s.greeting ++ sub ∷ [];
  armed = s.armed ++ sub ∷ [];
}

-- Subscribe, from RLock to the `select`.
unfoldable pub joined : Ctx → Option ℕ → System → System
unfolding get_state_chan select_on
joined ctx c s =
    let opts = with_custom_channel c ∷ with_timeout s.broadcast_timeout ∷ [] in
    let (m, sub) = get_state_chan s.manager (some ctx) opts in
    select_on c sub (record s { manager = m })

-- No goroutine has the write lock, and none the read lock.
abbrev pub can_read : Writer → Bool
can_read idle = true
can_read stored = false
can_read sending = false

abbrev pub can_write : System → Bool
can_write s = can_read s.writer && both_empty s.greeting s.stuck

abbrev pub is_stored : Writer → Bool
is_stored idle = false
is_stored stored = true
is_stored sending = false

abbrev pub is_sending : Writer → Bool
is_sending idle = false
is_sending stored = false
is_sending sending = true

-- One step; `none` where it cannot come.
unfoldable pub advance : Step → System → Option System
unfolding joined take_out happen remove_locked
-- RLock waits for the writer.
advance (join ctx c) s = if can_read s.writer then some (joined ctx c s) else none
-- The `select` of Subscribe sends the current state, and the read lock is released.
advance (greet i) s = elim (take_out i s.greeting) [
  | none ↦ none
  | some (sub, others) ↦
      if is_ready (s.chans sub.ch)
      then some (record s {
        greeting = others;
        chans = with_chan s.chans sub.ch (send (s.chans sub.ch) s.current);
      })
      else none
]
-- The `select` of Subscribe finds its context done.
advance (give_up i) s = elim (take_out i s.greeting) [
  | none ↦ none
  | some (sub, others) ↦
      if contains s.manager.ended sub.ref then some (record s { greeting = others }) else none
]
advance (give_up_nil i) s = elim (take_out i s.stuck) [
  | none ↦ none
  | some (sub, others) ↦
      if contains s.manager.ended sub.ref then some (record s { stuck = others }) else none
]
-- Transition or SetState stores a state and comes to the hooks.
advance (commit to) s =
    if can_write s then some (record s { current = to; target = to; writer = stored }) else none
-- BroadcastHook: Broadcast locks the manager.
advance start s =
    if is_stored s.writer
    then some
        (record s { todo = subscriptions s.manager.subscribers; pending = []; writer = sending })
    else none
-- An event of the broadcast, a receive, or the end of a context.
advance (inside event) s = elim (happen s.target event (round_of s)) [
  | none ↦ none
  | some r ↦ some (with_round s r)
]
-- Broadcast returns, then the transition.
advance finish s =
    if is_sending s.writer && is_over (round_of s) then some (record s { writer = idle }) else none
-- The AfterFunc of an ended subscription removes it, once it has the manager's mutex.
advance (drop i) s = elim (take_out i s.armed) [
  | none ↦ none
  | some (sub, others) ↦
      if contains s.manager.ended sub.ref && not (is_sending s.writer)
      then some (record s { armed = others; manager = remove_locked s.manager sub })
      else none
]

unfoldable pub run : List Step → System → Option System
unfolding advance
run [] s = some s
run (step ∷ steps) s = elim (advance step s) [ none ↦ none | some s' ↦ run steps s' ]

-- The states that transitions have stored, in order.
abbrev pub commits : List Step → List String
commits [] = []
commits (commit to ∷ steps) = to ∷ commits steps
commits (join _ _ ∷ steps) = commits steps
commits (greet _ ∷ steps) = commits steps
commits (give_up _ ∷ steps) = commits steps
commits (give_up_nil _ ∷ steps) = commits steps
commits (start ∷ steps) = commits steps
commits (inside _ ∷ steps) = commits steps
commits (finish ∷ steps) = commits steps
commits (drop _ ∷ steps) = commits steps
