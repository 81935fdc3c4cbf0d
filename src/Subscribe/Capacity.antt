-- ===== src/Subscribe/Capacity.antt =====
-- fsm.go, Subscribe: that no channel is filled past its capacity.
use go_fsm.Base.{◌≡◌, some, none, List, arith, nat_eq}
use go_fsm.Base.Lists.{All_of_all}
use go_fsm.Broadcast.Subscriptions.{subscription_of, chans_after}
use go_fsm.Broadcast.Happens.{with_chan_all}
use go_fsm.Broadcast.Capacity.{IsWithin, AreWithin, send-IsWithin, happen-AreWithin}
use go_fsm.Subscribe.System.{System, round_of, new_chan, Step, joined, run}
use go_fsm.Subscribe.Advances.{
  Advances, joins, greets_one, gives_up, gives_up_nil, commits_to, starts, goes_on, finishes, drops,
  run_keeps,
}

abbrev Fits : System → Type 0
Fits s = AreWithin s.chans

Advances-Fits : (step : Step) (s s' : System) → Unit {0} → Advances s step s' → Fits s → Fits s'
unfolding joined subscription_of chans_after
Advances-Fits _ s _ n (joins ctx none t) w =
    with_chan_all IsWithin s.chans s.manager.made.next_chan (new_chan 1) w (omega arith)
Advances-Fits _ s _ n (joins ctx (some k) t) w = w
Advances-Fits _ s _ n (greets_one i sub others e t) w =
    with_chan_all IsWithin s.chans sub.ch _ w
      (send-IsWithin (s.chans sub.ch) s.current t (w sub.ch))
Advances-Fits _ s _ n (gives_up i sub others e t) w = w
Advances-Fits _ s _ n (gives_up_nil i sub others e t) w = w
Advances-Fits _ s _ n (commits_to to t) w = w
Advances-Fits _ s _ n (starts t) w = w
Advances-Fits _ s _ n (goes_on event r e) w = happen-AreWithin s.target event (round_of s) r e w
Advances-Fits _ s _ n (finishes t over) w = w
Advances-Fits _ s _ n (drops i sub others e t) w = w

-- No channel ever holds more values than its capacity, through any subscriptions, transitions,
-- broadcasts and receives, from where none does.
pub run-AreWithin :
    (steps : List Step) (s s' : System)
    → AreWithin s.chans
    → run steps s ≡ some s'
    → AreWithin s'.chans
run-AreWithin steps s s' w h =
    run_keeps (λ step. Unit {0}) Fits Advances-Fits steps s s'
      (All_of_all (λ step. Unit {0}) (λ step. tt) steps) h w
