-- ===== src/Subscribe/Advances.antt =====
-- fsm.go, Subscribe: the steps that can come, as a relation. The results about steps are by its cases.
use go_fsm.Base.{
  some-inj, if-some, ℕ, ◌≡◌, subst, inl, inr, String, Bool, true, not, ◌&&◌, Option, none, some,
  List, [], ◌∷◌, nat_eq, Option-cases, arith, if◌then◌else◌,
}
use go_fsm.Base.Lists.{All, contains}
use go_fsm.Context.{Ctx}
use go_fsm.Broadcast.Subscriptions.{Subscription, remove_locked}
use go_fsm.Broadcast.Delivery.{is_ready, send, Round, Event, take_out, with_chan, happen, is_over}
use go_fsm.Subscribe.System.{
  System, idle, stored, sending, can_read, can_write, is_stored, is_sending, subscriptions,
  round_of, with_round, Step, join, greet, give_up, give_up_nil, commit, start, inside, finish,
  drop, joined, advance, run,
}

-- The `select` of Subscribe sends.
abbrev pub greet_sent : Subscription → List Subscription → System → System
greet_sent sub others s = record s {
  greeting = others;
  chans = with_chan s.chans sub.ch (send (s.chans sub.ch) s.current);
}

pub data Advances (s : System) : Step → System → Type 0 where
  joins :
      (ctx : Ctx) (c : Option ℕ)
      → can_read s.writer ≡ true
      → Advances s (join ctx c) (joined ctx c s)
  greets_one :
      (i : ℕ) (sub : Subscription) (others : List Subscription)
      → take_out i s.greeting ≡ some (sub, others)
      → is_ready (s.chans sub.ch) ≡ true
      → Advances s (greet i) (greet_sent sub others s)
  gives_up :
      (i : ℕ) (sub : Subscription) (others : List Subscription)
      → take_out i s.greeting ≡ some (sub, others)
      → contains s.manager.ended sub.ref ≡ true
      → Advances s (give_up i) (record s { greeting = others })
  gives_up_nil :
      (i : ℕ) (sub : Subscription) (others : List Subscription)
      → take_out i s.stuck ≡ some (sub, others)
      → contains s.manager.ended sub.ref ≡ true
      → Advances s (give_up_nil i) (record s { stuck = others })
  commits_to :
      (to : String)
      → can_write s ≡ true
      → Advances s (commit to) (record s { current = to; target = to; writer = stored })
  starts :
      is_stored s.writer ≡ true
      → Advances s start
          (record s { todo = subscriptions s.manager.subscribers; pending = []; writer = sending })
  goes_on :
      (event : Event) (r : Round)
      → happen s.target event (round_of s) ≡ some r
      → Advances s (inside event) (with_round s r)
  finishes :
      is_sending s.writer ≡ true
      → is_over (round_of s) ≡ true
      → Advances s finish (record s { writer = idle })
  drops :
      (i : ℕ) (sub : Subscription) (others : List Subscription)
      → take_out i s.armed ≡ some (sub, others)
      → contains s.manager.ended sub.ref ≡ true
      → Advances s (drop i) (record s { armed = others; manager = remove_locked s.manager sub })

-- A subscription waits in a list, and a test of it holds.
taken_out :
    (i : ℕ) (subs : List Subscription) (test : Subscription → Bool)
    (next : Subscription → List Subscription → System) (s' : System)
    → elim (take_out i subs) [
      | none ↦ none
      | some (sub, others) ↦ if test sub then some (next sub others) else none
    ]
      ≡ some s'
    → (sub : Subscription) × (others : List Subscription) × (take_out i subs ≡ some (sub, others))
      × (test sub ≡ true)
      × (next sub others ≡ s')
taken_out i subs test next s' h = elim (Option-cases (take_out i subs)) [
  | inl n ↦ absurd (cc (rw n at h))
  | inr ((sub, others), e) ↦
      let (t, q) = if-some (test sub) (next sub others) s' (rw e at h) in (sub, others, e, t, q)
]

pub advance-Advances : (step : Step) (s s' : System) → advance step s ≡ some s' → Advances s step s'
unfolding advance
advance-Advances (join ctx c) s s' h =
    let (t, q) = if-some (can_read s.writer) _ s' h in
    subst (Advances s (join ctx c)) q (joins ctx c t)
advance-Advances (greet i) s s' h =
    let (sub, others, e, t, q) =
      taken_out i s.greeting (λ sub. is_ready (s.chans sub.ch))
        (λ sub others. greet_sent sub others s) s' h in
    subst (Advances s (greet i)) q (greets_one i sub others e t)
advance-Advances (give_up i) s s' h =
    let (sub, others, e, t, q) =
      taken_out i s.greeting (λ sub. contains s.manager.ended sub.ref)
        (λ sub others. record s { greeting = others }) s' h in
    subst (Advances s (give_up i)) q (gives_up i sub others e t)
advance-Advances (give_up_nil i) s s' h =
    let (sub, others, e, t, q) =
      taken_out i s.stuck (λ sub. contains s.manager.ended sub.ref)
        (λ sub others. record s { stuck = others }) s' h in
    subst (Advances s (give_up_nil i)) q (gives_up_nil i sub others e t)
advance-Advances (commit to) s s' h =
    let (t, q) = if-some (can_write s) _ s' h in subst (Advances s (commit to)) q (commits_to to t)
advance-Advances start s s' h =
    let (t, q) = if-some (is_stored s.writer) _ s' h in subst (Advances s start) q (starts t)
advance-Advances (inside event) s s' h = elim (Option-cases (happen s.target event (round_of s))) [
  | inl e ↦ absurd (cc (rw (e, advance) at h))
  | inr (r, e) ↦
      subst (Advances s (inside event)) (some-inj (rw (e, advance) at h)) (goes_on event r e)
]
advance-Advances finish s s' h =
    let (t, q) = if-some (is_sending s.writer && is_over (round_of s)) _ s' h in
    subst (Advances s finish) q (finishes (ground (arith, t)) (ground (arith, t)))
advance-Advances (drop i) s s' h =
    let (sub, others, e, t, q) =
      taken_out i s.armed (λ sub. contains s.manager.ended sub.ref && not (is_sending s.writer))
        (λ sub others. record s { armed = others; manager = remove_locked s.manager sub }) s' h in
    subst (Advances s (drop i)) q (drops i sub others e (ground (arith, t)))

-- What every step that `ok` admits keeps, a run of such steps keeps.
pub run_keeps :
    (ok : Step → Type 0) (P : System → Type 0)
    → ((step : Step) (s s' : System) → ok step → Advances s step s' → P s → P s')
    → (steps : List Step) (s s' : System) → All ok steps
    → run steps s ≡ some s'
    → P s
    → P s'
unfolding run
run_keeps ok P keeps [] s s' a h p = subst P (some-inj h) p
run_keeps ok P keeps (step ∷ steps) s s' a h p = elim (Option-cases (advance step s)) [
  | inl e ↦ absurd (cc (rw (e, run) at h))
  | inr (s'', e) ↦
      run_keeps ok P keeps steps s'' s' a.1 (rw (e, run) at h)
        (keeps step s s'' a.0 (advance-Advances step s s'' e) p)
]
