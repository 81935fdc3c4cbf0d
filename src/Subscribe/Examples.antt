-- ===== src/Subscribe/Examples.antt =====
-- Runs of Subscribe among transitions, and the results about it applied to these.
use go_fsm.Base.{
  ◌≡◌, string_eq, refl, nat_eq, String, true, false, some, none, List, [], ◌∷◌, ◌++◌, arith,
}
use go_fsm.Base.Int.{pos, negsuc}
use go_fsm.Base.Lists.{All, contains, set_add}
use go_fsm.Base.Maps.{insert, erase}
use go_fsm.Context.{background}
use go_fsm.Broadcast.Subscriptions.{
  new_manager, make_sized, apply_settings, apply_setting, get_state_chan, subscription_of,
  chans_after, remove_locked,
}
use go_fsm.Broadcast.Delivery.{
  send, receive, history, visit, deliver, abandon, taken, gone, happen, take_out, settle, visit_sub,
  put, take_from,
}
use go_fsm.Subscribe.System.{
  System, idle, can_write, new_chan, Step, join, greet, commit, start, inside, finish, drop, joined,
  select_on, advance, run,
}
use go_fsm.Subscribe.Served.{Heard, touches}
use go_fsm.Subscribe.Gapless.{IsFree, IsQuiet, run-heard, run-gapless}
use go_fsm.Broadcast.Capacity.{AreWithin}
use go_fsm.Subscribe.Behind.{IsBehind, run-IsBehind}
use go_fsm.Subscribe.Progress.{goes_forward, run-can_write}
use go_fsm.Subscribe.Stalled.{run-stalled}

-- A machine in New, whose clients have an unbuffered channel and one with a buffer.
abbrev machine : System
machine = record {
  current = "New";
  broadcast_timeout = negsuc 0;
  manager = record new_manager { made = make_sized 1 (make_sized 0 new_manager.made) };
  greeting = [];
  stuck = [];
  armed = [];
  writer = idle;
  target = "";
  todo = [];
  pending = [];
  chans = λ k. new_chan k;
}

-- The first subscriber receives, is told of a transition while the second comes and goes, and
-- receives again.
abbrev steps : List Step
steps =
    inside (taken 0)
    ∷ greet 0
    ∷ join background (some 1)
    ∷ greet 1
    ∷ commit "Booting"
    ∷ inside (gone 1)
    ∷ start
    ∷ inside visit
    ∷ inside visit
    ∷ inside (abandon 1)
    ∷ inside (taken 0)
    ∷ inside (deliver 0)
    ∷ finish
    ∷ drop 1
    ∷ []

-- A run's last state.
after : List Step → System → System
after steps s = elim (run steps s) [ none ↦ s | some s' ↦ s' ]

abbrev final : System
final = after (join background (some 0) ∷ steps) machine

free : IsFree 0 machine
unfolding contains
free = record {
  keyed = tt;
  unstored = refl;
  unarmed = refl;
  ungreeted = refl;
  unvisited = refl;
  unsent = refl;
  old = omega arith;
  unended = refl;
  calm = λ k h. refl;
}

final_lem : (IsQuiet 0 final) × (run (join background (some 0) ∷ steps) machine ≡ some final)
unfolding after run advance joined select_on get_state_chan apply_settings apply_setting
    subscription_of chans_after insert erase remove_locked take_out happen settle visit_sub send put
    receive take_from contains set_add
final_lem = ((refl, refl), refl)

untouched : All (λ step. touches 0 0 step ≡ false) steps
untouched = (
  refl,
  (
    refl,
    (
      refl,
      (refl, (refl, (refl, (refl, (refl, (refl, (refl, (refl, (refl, (refl, (refl, tt))))))))))),
    ),
  ),
)

run-gapless_example : history (final.chans 0) ≡ [] ++ "New" ∷ "Booting" ∷ []
run-gapless_example =
    run-gapless background 0 steps machine final free refl untouched final_lem.1 final_lem.0

-- The transition has the lock back, and its broadcast has not met the receiver.
abbrev early_steps : List Step
early_steps = inside (taken 0) ∷ greet 0 ∷ commit "Booting" ∷ start ∷ inside visit ∷ []

abbrev early : System
early = after (join background (some 0) ∷ early_steps) machine

early_lem : (run (join background (some 0) ∷ early_steps) machine ≡ some early) × (early.stuck ≡ [])
unfolding after run advance joined select_on get_state_chan apply_settings apply_setting
    subscription_of chans_after insert erase remove_locked take_out happen settle visit_sub send put
    receive take_from contains set_add
early_lem = (refl, refl)

run-IsBehind_example : IsBehind [] (history (early.chans 0)) ("New" ∷ "Booting" ∷ [])
run-IsBehind_example =
    run-IsBehind background 0 early_steps machine early free refl
      (refl, (refl, (refl, (refl, (refl, tt))))) early_lem.0

-- The same with best effort, and no receiver at the transition.
abbrev best_effort : System
best_effort = record machine { broadcast_timeout = pos 0 }

abbrev missing_steps : List Step
missing_steps = inside (taken 0) ∷ greet 0 ∷ commit "Booting" ∷ start ∷ inside visit ∷ finish ∷ []

abbrev missed : System
missed = after (join background (some 0) ∷ missing_steps) best_effort

missed-IsFree : IsFree 0 best_effort
unfolding contains
missed-IsFree = record {
  keyed = tt;
  unstored = refl;
  unarmed = refl;
  ungreeted = refl;
  unvisited = refl;
  unsent = refl;
  old = omega arith;
  unended = refl;
  calm = λ k h. refl;
}

missed_lem :
    (IsQuiet 0 missed) × (run (join background (some 0) ∷ missing_steps) best_effort ≡ some missed)
unfolding after run advance joined select_on get_state_chan apply_settings apply_setting
    subscription_of chans_after insert erase remove_locked take_out happen settle visit_sub send put
    receive take_from contains set_add
missed_lem = ((refl, refl), refl)

run-heard_example :
    (heard : List String) × Heard (pos 0) ("New" ∷ "Booting" ∷ []) heard
    × (history (missed.chans 0) ≡ [] ++ heard)
run-heard_example =
    run-heard background 0 missing_steps best_effort missed missed-IsFree
      (refl, (refl, (refl, (refl, (refl, (refl, tt)))))) missed_lem.1 missed_lem.0

-- A call without a channel, and a subscriber who comes and goes.
abbrev stalled_steps : List Step
stalled_steps = join background (some 1) ∷ greet 1 ∷ inside (gone 1) ∷ drop 1 ∷ []

abbrev stalled : System
stalled = after (join background none ∷ stalled_steps) machine

stalled-run : run (join background none ∷ stalled_steps) machine ≡ some stalled
unfolding after run advance joined select_on get_state_chan apply_settings apply_setting
    subscription_of chans_after insert erase remove_locked take_out happen settle visit_sub send put
    receive take_from contains set_add
stalled-run = refl

stalled_live : contains machine.manager.ended machine.manager.next_ref ≡ false
unfolding contains
stalled_live = refl

run-stalled_example : advance (commit "Booting") stalled ≡ none
run-stalled_example =
    run-stalled background stalled_steps machine stalled "Booting" stalled_live
      (refl, (refl, (refl, (refl, tt)))) stalled-run

machine_within : AreWithin machine.chans
machine_within k = omega arith

run-can_write_example :
    (steps' : List Step) × (s : System) × (run steps' early ≡ some s)
    × (can_write s ≡ true)
    × All (λ step. goes_forward step ≡ true) steps'
run-can_write_example =
    run-can_write (join background (some 0) ∷ early_steps) machine early machine_within early_lem.0
      early_lem.1
