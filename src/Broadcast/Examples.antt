-- ===== src/Broadcast/Examples.antt =====
-- Runs of hooks/broadcast's subscriptions, and the results about them applied to these.
use go_fsm.Base.{ℕ, arith, ◌≡◌, refl, nat_eq, true, false, some, List, [], ◌∷◌, ◌++◌, ◌⊎◌, ◌≤◌, ◌+◌}
use go_fsm.Base.Lists.{All, contains, length, set_add}
use go_fsm.Base.Int.{pos, negsuc}
use go_fsm.Base.Maps.{lookup, insert, erase, has_key}
use go_fsm.Context.{background}
use go_fsm.Broadcast.Subscriptions.{
  Manager, new_manager, Subscription, SubscribeOption, with_custom_channel, with_timeout,
  apply_settings, no_settings, make_sized, subscription_of, chans_after, get_state_chan, cancel,
  remove_locked, signal_all, unsubscribe_all,
}
use go_fsm.Broadcast.Sound.{IsSound, new_manager-IsSound}
use go_fsm.Broadcast.Histories.{
  IsUsableChannel, Manages, make_chan, subscribe, start, then_step, Manages-IsSound,
}
use go_fsm.Broadcast.Delivery.{
  Chan, send, receive, history, Round, Event, visit, deliver, taken, gone, visit_sub, with_chan,
  happen, happen_all, take_out, settle, is_over,
}
use go_fsm.Broadcast.Once.{IsCalm, IsExcused}
use go_fsm.Broadcast.Guarantee.{start_round, happen_all-delivered}
use go_fsm.Broadcast.Bounds.{count_own, is_own}
use go_fsm.Broadcast.Progress.{happen_all-goes_on}
use go_fsm.Broadcast.Releases.{unsubscribe_all-releases}
use go_fsm.Broadcast.Ending.{unsubscribe_all_lem, shared_channel-remove_locked}

-- A manager with a channel of its client, which subscribes it and one of the manager's own.
abbrev with_client_chan : Manager
with_client_chan = record new_manager { made = make_sized 0 new_manager.made }

abbrev custom : List SubscribeOption
custom = with_custom_channel (some 0) ∷ with_timeout (negsuc 0) ∷ []

abbrev one : Manager
one = (get_state_chan with_client_chan (some background) custom).0

abbrev two : Manager
two = (get_state_chan one (some background) []).0

custom_usable : IsUsableChannel with_client_chan custom
unfolding contains
custom_usable = ((omega arith, refl), (tt, tt))

custom_channel : (apply_settings custom (no_settings, with_client_chan.made)).0.channel ≡ some 0
unfolding apply_settings
custom_channel = refl

custom_channel_again : (apply_settings custom (no_settings, one.made)).0.channel ≡ some 0
unfolding apply_settings
custom_channel_again = refl

none_usable : IsUsableChannel one []
none_usable = tt

two_managed : Manages new_manager two
two_managed =
    then_step
      (then_step (then_step start (make_chan 0)) (subscribe (some background) custom custom_usable))
      (subscribe (some background) [] none_usable)

Manages-IsSound_example : IsSound two
Manages-IsSound_example = Manages-IsSound new_manager-IsSound two_managed

unsubscribe_all_lem_example :
    ((k : ℕ) → has_key k (unsubscribe_all two).subscribers ≡ false)
    × ((k : ℕ) (s : Subscription)
        → lookup k two.subscribers ≡ some s
        → contains (unsubscribe_all two).ended s.ref ≡ true)
unsubscribe_all_lem_example =
    unsubscribe_all_lem two (Manages-IsSound new_manager-IsSound two_managed)

unsubscribe_test : (unsubscribe_all two).closed ≡ 1 ∷ []
unfolding unsubscribe_all get_state_chan insert subscription_of chans_after lookup erase
unsubscribe_test = refl

abbrev first_sub : Subscription
first_sub = record { ref = 0; ch = 0; timeout = negsuc 0; external_channel = true }

first_subscribed : get_state_chan with_client_chan (some background) custom ≡ (one, some first_sub)
unfolding get_state_chan subscription_of
first_subscribed = refl

-- The one that takes its place.
abbrev later_sub : Subscription
later_sub = record { ref = 1; ch = 0; timeout = negsuc 0; external_channel = true }

later_subscribed : (get_state_chan one (some background) custom).1 ≡ some later_sub
unfolding get_state_chan subscription_of
later_subscribed = refl

fresh_number : contains with_client_chan.ended 1 ≡ false
unfolding contains
fresh_number = refl

shared_channel-remove_locked_example :
    let m = (get_state_chan one (some background) custom).0 in
    (lookup 0 m.subscribers ≡ some later_sub)
    × (has_key 0 (remove_locked (cancel m first_sub) first_sub).subscribers ≡ false)
    × (contains (remove_locked (cancel m first_sub) first_sub).ended 1 ≡ false)
shared_channel-remove_locked_example =
    shared_channel-remove_locked with_client_chan one background background custom custom 0
      first_sub later_sub custom_channel first_subscribed custom_channel_again later_subscribed
      fresh_number

-- Channels with room for one value.
abbrev roomy : ℕ → Chan
roomy k = record { capacity = 1; buffer = []; waiting = 0; received = [] }

roomy-IsCalm : (k : ℕ) → IsCalm (roomy k)
roomy-IsCalm k h = refl

abbrev broadcast_events : List Event
broadcast_events = visit ∷ taken 0 ∷ deliver 0 ∷ []

abbrev after_broadcast : Round
after_broadcast = record {
  todo = [];
  pending = [];
  chans =
      with_chan (with_chan roomy 0 (receive (roomy 0))) 0
        (send (with_chan roomy 0 (receive (roomy 0)) 0) "on");
  ended = [];
}

broadcast_ends :
    happen_all "on" broadcast_events (start_round (first_sub ∷ []) roomy []) ≡ some after_broadcast
unfolding happen_all happen take_out settle receive
broadcast_ends = refl

happen_all-delivered_example :
    (history (after_broadcast.chans 0) ≡ history (roomy 0) ++ "on" ∷ [])
    ⊎ ((history (after_broadcast.chans 0) ≡ history (roomy 0))
        × IsExcused "on" 0 first_sub after_broadcast.ended)
happen_all-delivered_example =
    happen_all-delivered "on" (first_sub ∷ []) roomy [] broadcast_events after_broadcast first_sub
      roomy-IsCalm refl broadcast_ends refl

-- Best effort drops the state where the channel is full.
full_test :
    happen_all "on" (visit ∷ []) (
      start_round
        (record { ref = 0; ch = 0; timeout = pos 0; external_channel = true } ∷ [])
        (λ k. record { capacity = 0; buffer = []; waiting = 0; received = [] })
        [])
    ≡ some (record {
      todo = [];
      pending = [];
      chans = λ k. record { capacity = 0; buffer = []; waiting = 0; received = [] };
      ended = [];
    })
unfolding happen_all happen
full_test = refl

-- The loop has visited the guaranteed subscriber, who then leaves.
abbrev left_behind : Round
left_behind = record { todo = []; pending = first_sub ∷ []; chans = roomy; ended = 0 ∷ [] }

leaving :
    happen_all "on" (visit ∷ gone 0 ∷ []) (start_round (first_sub ∷ []) roomy []) ≡ some left_behind
unfolding happen_all happen visit_sub set_add contains
leaving = refl

first_has_left : contains left_behind.ended first_sub.ref ≡ true
unfolding contains
first_has_left = refl

happen_all-goes_on_example :
    (count_own (visit ∷ gone 0 ∷ []) ≤ length (first_sub ∷ []) + length (first_sub ∷ []))
    × ((is_over left_behind ≡ true)
        ⊎ ((event : Event) × (r : Round) × (is_own event ≡ true)
            × (happen "on" event left_behind ≡ some r)))
happen_all-goes_on_example =
    happen_all-goes_on "on" (first_sub ∷ []) roomy [] (visit ∷ gone 0 ∷ []) left_behind leaving
      ((λ _. first_has_left), tt)

-- A broadcast to the subscribers of a manager: one is visited, the other waits.
abbrev under_way : Round
under_way = record {
  todo = record { ref = 1; ch = 1; timeout = pos 0; external_channel = false } ∷ [];
  pending = first_sub ∷ [];
  chans = roomy;
  ended = [];
}

stored_under_way :
    (lookup 0 two.subscribers ≡ some first_sub)
    × (lookup 1 two.subscribers
        ≡ some (record { ref = 1; ch = 1; timeout = pos 0; external_channel = false }))
unfolding get_state_chan insert subscription_of chans_after lookup
stored_under_way = (refl, refl)

unsubscribe_all-releases_example :
    (events : List Event) × (r : Round) × (happen_all "on" events
        (record under_way { ended = (signal_all two two.subscribers).ended })
      ≡ some r)
    × (is_over r ≡ true)
    × All (λ event. is_own event ≡ true) events
unsubscribe_all-releases_example =
    unsubscribe_all-releases "on" two under_way (stored_under_way.1, tt) (stored_under_way.0, tt)
