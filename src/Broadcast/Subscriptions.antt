-- ===== src/Broadcast/Subscriptions.antt =====
-- hooks/broadcast/manager.go and options.go: how subscriptions begin and end.
-- Channels and subscriptions are numbered by their allocators. The mutex makes each operation one
-- step; what `close` was called on is kept in `closed`, in order.
use go_fsm.Base.{
  ℕ, suc, Bool, true, false, Option, none, some, List, [], ◌∷◌, ◌++◌, if◌then◌else◌, nat_eq,
}
use go_fsm.Base.Int.{ℤ, pos, negsuc}
use go_fsm.Base.Lists.{set_add}
use go_fsm.Base.Maps.{Map, lookup, insert, erase}
use go_fsm.Context.{Ctx}

-- subscription. Its `done` channel is closed when `ref` is among the manager's `ended`.
pub record Subscription : Type 0 where
  pub ref : ℕ
  pub ch : ℕ
  pub timeout : ℤ
  pub external_channel : Bool

-- Config, the target of the options.
pub record Settings : Type 0 where
  pub channel : Option ℕ
  pub external_channel : Bool
  pub timeout : ℤ

pub data SubscribeOption : Type 0 where
  with_buffer_size : ℤ → SubscribeOption
  with_custom_channel : Option ℕ → SubscribeOption
  with_timeout : ℤ → SubscribeOption

-- The channels that `make` has made: the next number, and the capacity of each.
pub record Made : Type 0 where
  pub next_chan : ℕ
  pub capacities : Map ℕ ℕ

-- `make(chan string, size)`
abbrev pub make_sized : ℕ → Made → Made
make_sized size made = record {
  next_chan = suc made.next_chan;
  capacities = insert made.next_chan size made.capacities;
}

-- `max(size, 0)`
abbrev pub at_least_zero : ℤ → ℕ
at_least_zero (pos n) = n
at_least_zero (negsuc n) = 0

-- An option, applied: WithBufferSize makes a channel.
unfoldable pub apply_setting : SubscribeOption → Settings × Made → Settings × Made
apply_setting (with_buffer_size size) (c, made) = (
  record c { channel = some made.next_chan; external_channel = false },
  make_sized (at_least_zero size) made,
)
apply_setting (with_custom_channel ch) (c, made) =
    (record c { channel = ch; external_channel = true }, made)
apply_setting (with_timeout d) (c, made) = (record c { timeout = d }, made)

unfoldable pub apply_settings : List SubscribeOption → Settings × Made → Settings × Made
unfolding apply_setting
apply_settings [] c = c
apply_settings (opt ∷ opts) c = apply_settings opts (apply_setting opt c)

abbrev pub no_settings : Settings
no_settings = record { channel = none; external_channel = false; timeout = pos 0 }

-- Manager, without its mutex and logger, with the allocators and the ends of contexts.
pub record Manager : Type 0 where
  pub subscribers : Map ℕ Subscription
  pub ended : List ℕ
  pub closed : List ℕ
  pub made : Made
  pub next_ref : ℕ

abbrev pub new_manager : Manager
new_manager = record {
  subscribers = [];
  ended = [];
  closed = [];
  made = record { next_chan = 0; capacities = [] };
  next_ref = 0;
}

-- The subscription that the settings make: over their channel, or over one of the manager's own.
unfoldable pub subscription_of : Settings → ℕ → ℕ → Subscription
subscription_of config made ref = elim config.channel [
  | some ch ↦ record {
    ref = ref;
    ch = ch;
    timeout = config.timeout;
    external_channel = config.external_channel;
  }
  | none ↦ record { ref = ref; ch = made; timeout = config.timeout; external_channel = false }
]

-- A channel is made where the settings bring none.
unfoldable pub chans_after : Settings → Made → Made
chans_after config made = elim config.channel [ none ↦ make_sized 1 made | some _ ↦ made ]

-- GetStateChan: the subscription is stored under its channel. A context that is nil is `none`, and
-- its error the `none` of the result.
unfoldable pub get_state_chan :
    Manager → Option Ctx → List SubscribeOption → Manager × Option Subscription
unfolding apply_settings
get_state_chan m none opts = (m, none)
get_state_chan m (some ctx) opts =
    let (config, made) = apply_settings opts (no_settings, m.made) in
    let sub = subscription_of config made.next_chan m.next_ref in
    (
      record m {
        subscribers = insert sub.ch sub m.subscribers;
        made = chans_after config made;
        next_ref = suc m.next_ref;
      },
      some sub,
    )

-- `sub.cancel()`, or the end of the subscriber's own context.
unfoldable pub cancel : Manager → Subscription → Manager
cancel m sub = record m { ended = set_add m.ended sub.ref }

-- removeLocked; `remove` adds the lock.
unfoldable pub remove_locked : Manager → Subscription → Manager
remove_locked m sub = elim (lookup sub.ch m.subscribers) [
  | none ↦ m
  | some _ ↦ record m {
    subscribers = erase sub.ch m.subscribers;
    closed = if sub.external_channel then m.closed else m.closed ++ sub.ch ∷ [];
  }
]

-- The first pass of UnsubscribeAll, before it has the lock.
unfoldable pub signal_all : Manager → Map ℕ Subscription → Manager
unfolding cancel
signal_all m [] = m
signal_all m ((_, sub) ∷ rest) = signal_all (cancel m sub) rest

-- The second pass, with the lock.
unfoldable pub sweep_all : Manager → Map ℕ Subscription → Manager
unfolding cancel remove_locked
sweep_all m [] = m
sweep_all m ((_, sub) ∷ rest) = sweep_all (remove_locked (cancel m sub) sub) rest

-- UnsubscribeAll, when nothing comes between its passes.
unfoldable pub unsubscribe_all : Manager → Manager
unfolding signal_all sweep_all
unsubscribe_all m = let m' = signal_all m m.subscribers in sweep_all m' m'.subscribers
