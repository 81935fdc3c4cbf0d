-- ===== src/Broadcast/Delivery.antt =====
-- hooks/broadcast/manager.go, Broadcast: one broadcast, from its lock to its unlock.
-- The loop and the goroutines that it starts, the subscribers that receive and the contexts that
-- end meanwhile are events; a list of events is one order in which they come.
use go_fsm.Base.{
  ℕ, suc, ◌-◌, String, Bool, true, false, not, ◌||◌, ◌&&◌, Option, none, some, List, [], ◌∷◌, ◌++◌,
  leb, if◌then◌else◌, ◌==◌, nat_eq,
}
use go_fsm.Base.Int.{ℤ, pos, negsuc}
use go_fsm.Base.Lists.{length, contains, set_add}
use go_fsm.Broadcast.Subscriptions.{Subscription}

-- A Go channel of strings: what lies in its buffer, how many receivers wait, and what they got.
pub record Chan : Type 0 where
  pub capacity : ℕ
  pub buffer : List String
  pub waiting : ℕ
  pub received : List String

abbrev pub is_ready : Chan → Bool
is_ready c = leb 1 c.waiting || leb (suc (length c.buffer)) c.capacity

-- To a receiver that waits, or into the buffer.
unfoldable pub put : Bool → Chan → String → Chan
put true c v = record c { waiting = c.waiting - 1; received = c.received ++ v ∷ [] }
put false c v = record c { buffer = c.buffer ++ v ∷ [] }

-- A send that does not block.
unfoldable pub send : Chan → String → Chan
unfolding put
send c v = put (leb 1 c.waiting) c v

unfoldable pub take_from : List String → Chan → Chan
take_from [] c = record c { waiting = suc c.waiting }
take_from (v ∷ rest) c = record c { buffer = rest; received = c.received ++ v ∷ [] }

-- A receiver comes.
unfoldable pub receive : Chan → Chan
unfolding take_from
receive c = take_from c.buffer c

-- Everything that was sent on a channel, in order.
abbrev pub history : Chan → List String
history c = c.received ++ c.buffer

-- A broadcast under way: the subscriptions that the loop has yet to visit, and those whose
-- goroutines wait in their `select`.
pub record Round : Type 0 where
  pub todo : List Subscription
  pub pending : List Subscription
  pub chans : ℕ → Chan
  pub ended : List ℕ

pub data Event : Type 0 where
  visit : Event
  deliver : ℕ → Event
  abandon : ℕ → Event
  expire : ℕ → Event
  taken : ℕ → Event
  gone : ℕ → Event

abbrev pub is_negative : ℤ → Bool
is_negative (pos n) = false
is_negative (negsuc n) = true

abbrev pub is_zero : ℤ → Bool
is_zero (pos n) = n == 0
is_zero (negsuc n) = false

abbrev pub is_positive : ℤ → Bool
is_positive d = not (is_negative d) && not (is_zero d)

-- The channels with one changed.
abbrev pub with_chan : (ℕ → Chan) → ℕ → Chan → ℕ → Chan
with_chan chans k c j = if k == j then c else chans j

-- The pending subscription of a number, and the others.
unfoldable pub take_out : ℕ → List Subscription → Option (Subscription × List Subscription)
take_out i [] = none
take_out i (sub ∷ subs) =
    let rest = take_out i subs in
    if sub.ref == i
    then some (sub, subs)
    else elim rest [ none ↦ none | some (s, others) ↦ some (s, sub ∷ others) ]

-- The loop's body: a timeout of zero is a `select` with a default; the others start a goroutine.
unfoldable pub visit_sub : String → Round → Subscription → List Subscription → Round
visit_sub state r sub rest =
    if is_zero sub.timeout
    then if is_ready (r.chans sub.ch)
      then record r { todo = rest; chans = with_chan r.chans sub.ch (send (r.chans sub.ch) state) }
      else record r { todo = rest }
    else record r { todo = rest; pending = r.pending ++ sub ∷ [] }

-- A goroutine's `select`: each case that is ready may be chosen.
unfoldable pub settle : String → Event → Round → Subscription → List Subscription → Option Round
settle state (deliver i) r sub others =
    if is_ready (r.chans sub.ch)
    then some (record r {
      pending = others;
      chans = with_chan r.chans sub.ch (send (r.chans sub.ch) state);
    })
    else none
settle state (abandon i) r sub others =
    if contains r.ended sub.ref then some (record r { pending = others }) else none
settle state (expire i) r sub others =
    if is_positive sub.timeout then some (record r { pending = others }) else none
settle state visit r sub others = none
settle state (taken ch) r sub others = none
settle state (gone i) r sub others = none

abbrev pub settle_at : String → Event → ℕ → Round → Option Round
settle_at state event i r = elim (take_out i r.pending) [
  | none ↦ none
  | some (sub, others) ↦ settle state event r sub others
]

-- One event; `none` where it cannot come.
unfoldable pub happen : String → Event → Round → Option Round
unfolding visit_sub
happen state visit r = elim r.todo [ [] ↦ none | sub ∷ rest ↦ some (visit_sub state r sub rest) ]
happen state (deliver i) r = settle_at state (deliver i) i r
happen state (abandon i) r = settle_at state (abandon i) i r
happen state (expire i) r = settle_at state (expire i) i r
happen state (taken ch) r = some (record r { chans = with_chan r.chans ch (receive (r.chans ch)) })
happen state (gone i) r = some (record r { ended = set_add r.ended i })

unfoldable pub happen_all : String → List Event → Round → Option Round
happen_all state [] r = some r
happen_all state (event ∷ events) r = elim (happen state event r) [
  | none ↦ none
  | some r' ↦ happen_all state events r'
]

abbrev pub both_empty : List Subscription → List Subscription → Bool
both_empty [] [] = true
both_empty [] (_ ∷ _) = false
both_empty (_ ∷ _) pending = false

-- The loop is over and wg.Wait returns.
abbrev pub is_over : Round → Bool
is_over r = both_empty r.todo r.pending
