-- ===== src/Subscribe/Served.antt =====
-- fsm.go, Subscribe: how far the system is with one subscriber, who alone has its channel.
use go_fsm.Base.{
  ℕ, ◌<◌, ◌≡◌, ◌∙◌, refl, sym, ap, subst, String, Bool, true, false, some, none, List, [], ◌∷◌,
  ◌++◌, ◌==◌, nat_eq,
}
use go_fsm.Base.Int.{ℤ}
use go_fsm.Base.Lists.{contains}
use go_fsm.Broadcast.Subscriptions.{Subscription}
use go_fsm.Broadcast.Delivery.{
  Round, history, Event, visit, deliver, abandon, expire, taken, gone, is_negative,
}
use go_fsm.Broadcast.Once.{IsCalm, Phase, Effect, apart, started, tried, settled, Effect-Phase}
use go_fsm.Subscribe.System.{
  System, Step, join, greet, give_up, give_up_nil, commit, start, inside, finish, drop, idle,
  stored, sending, subscriptions, round_of, with_round,
}
use go_fsm.Subscribe.Alone.{IsKeyed, here}

-- What a subscriber hears of what it is told: the first state, then all, in order, but for what a
-- timeout that is not negative lets it miss.
pub data Heard (timeout : ℤ) : List String → List String → Type 0 where
  greeted : (state : String) → Heard timeout (state ∷ []) (state ∷ [])
  got :
      {told heard : List String} (state : String)
      → Heard timeout told heard
      → Heard timeout (told ++ state ∷ []) (heard ++ state ∷ [])
  skipped :
      {told heard : List String} (state : String)
      → is_negative timeout ≡ false
      → Heard timeout told heard
      → Heard timeout (told ++ state ∷ []) heard

-- The steps that the subscriber excludes: another subscription of its channel, and the end of its
-- own context.
abbrev pub ends : ℕ → Event → Bool
ends i (gone j) = j == i
ends i visit = false
ends i (deliver _) = false
ends i (abandon _) = false
ends i (expire _) = false
ends i (taken _) = false

abbrev pub touches : ℕ → ℕ → Step → Bool
touches ch i (join _ (some k)) = k == ch
touches ch i (join _ none) = false
touches ch i (inside event) = ends i event
touches ch i (greet _) = false
touches ch i (give_up _) = false
touches ch i (give_up_nil _) = false
touches ch i (commit _) = false
touches ch i start = false
touches ch i finish = false
touches ch i (drop _) = false

-- The states told, once a step has come.
abbrev pub tell : Step → List String → List String
tell (commit to) told = told ++ to ∷ []
tell (join _ _) told = told
tell (greet _) told = told
tell (give_up _) told = told
tell (give_up_nil _) told = told
tell start told = told
tell (inside _) told = told
tell finish told = told
tell (drop _) told = told

module _ (me : Subscription) where
  -- The subscription is there, alone on its channel, and its context lives.
  pub record IsHeld (s : System) : Type 0 where
    pub keyed : IsKeyed s.manager.subscribers
    pub stored_once : here me.ch (subscriptions s.manager.subscribers) ≡ me ∷ []
    pub armed_once : here me.ch s.armed ≡ me ∷ []
    pub old : me.ch < s.manager.made.next_chan
    pub live : contains s.manager.ended me.ref ≡ false
    pub calm : (k : ℕ) → IsCalm (s.chans k)

  -- How far the system is with telling the subscriber.
  pub data Stage (before told : List String) (s : System) : Type 0 where
    greets :
        s.writer ≡ idle
        → here me.ch s.greeting ≡ me ∷ []
        → here me.ch s.todo ≡ []
        → here me.ch s.pending ≡ []
        → told ≡ s.current ∷ []
        → history (s.chans me.ch) ≡ before
        → Stage before told s
    rests :
        {heard : List String}
        → s.writer ≡ idle
        → here me.ch s.greeting ≡ []
        → here me.ch s.todo ≡ []
        → here me.ch s.pending ≡ []
        → Heard me.timeout told heard
        → history (s.chans me.ch) ≡ before ++ heard
        → Stage before told s
    stores :
        {told' heard : List String}
        → s.writer ≡ stored
        → here me.ch s.greeting ≡ []
        → here me.ch s.todo ≡ []
        → here me.ch s.pending ≡ []
        → told ≡ told' ++ s.target ∷ []
        → Heard me.timeout told' heard
        → history (s.chans me.ch) ≡ before ++ heard
        → Stage before told s
    sends :
        {told' heard : List String}
        → s.writer ≡ sending
        → here me.ch s.greeting ≡ []
        → told ≡ told' ++ s.target ∷ []
        → Heard me.timeout told' heard
        → Phase s.target me.ch me (before ++ heard) (round_of s)
        → Stage before told s

  abbrev pub Grows : List ℕ → List ℕ → Type 0
  Grows ended ended' = (i : ℕ) → contains ended i ≡ true → contains ended' i ≡ true

  -- A step that is not about the subscriber.
  pub Stage-kept :
      (before told : List String) (s s' : System)
      → (s'.writer ≡ s.writer) × (s'.current ≡ s.current) × (s'.target ≡ s.target)
      → here me.ch s'.greeting ≡ here me.ch s.greeting
      → here me.ch s'.todo ≡ here me.ch s.todo
      → here me.ch s'.pending ≡ here me.ch s.pending
      → history (s'.chans me.ch) ≡ history (s.chans me.ch)
      → Grows s.manager.ended s'.manager.ended
      → Stage before told s
      → Stage before told s'
  Stage-kept before told s s' (w, c, t) g d p h grows (greets a b e f q k) =
      greets (w ∙ a) (g ∙ b) (d ∙ e) (p ∙ f) (q ∙ ap (λ x. x ∷ []) (sym c)) (h ∙ k)
  Stage-kept before told s s' (w, c, t) g d p h grows (rests a b e f q k) =
      rests (w ∙ a) (g ∙ b) (d ∙ e) (p ∙ f) q (h ∙ k)
  Stage-kept before told s s' (w, c, t) g d p h grows (stores {told'} a b e f q v k) =
      stores (w ∙ a) (g ∙ b) (d ∙ e) (p ∙ f) (q ∙ ap (λ x. told' ++ x ∷ []) (sym t)) v (h ∙ k)
  Stage-kept before told s s' (w, c, t) g d p h grows (sends {told'} {heard} a b q v phase) =
      sends (w ∙ a) (g ∙ b) (q ∙ ap (λ x. told' ++ x ∷ []) (sym t)) v (
        subst (λ x. Phase x me.ch me (before ++ heard) (round_of s')) (sym t)
          (Effect-Phase s.target me.ch me (before ++ heard) (round_of s) (round_of s')
            (apart d p h grows) phase))

  -- An event while no broadcast concerns the channel.
  quiet-Effect :
      (state : String) (r r' : Round)
      → here me.ch r.todo ≡ []
      → here me.ch r.pending ≡ []
      → Effect state me.ch r r'
      → (here me.ch r'.todo ≡ here me.ch r.todo)
        × (here me.ch r'.pending ≡ here me.ch r.pending)
        × (history (r'.chans me.ch) ≡ history (r.chans me.ch))
        × Grows r.ended r'.ended
  quiet-Effect state r r' t p (apart a b c g) = (a, b, c, g)
  quiet-Effect state r r' t p (started sub a b c) = absurd (cc (a, t))
  quiet-Effect state r r' t p (tried sub a b c) = absurd (cc (a, t))
  quiet-Effect state r r' t p (settled sub a one n c) = absurd (n p)

  pub with_round-Stage :
      (before told : List String) (s : System) (r : Round)
      → Effect s.target me.ch (round_of s) r
      → Stage before told s
      → Stage before told (with_round s r)
  with_round-Stage before told s r effect (sends {told'} {heard} a b q v phase) =
      sends a b q v (Effect-Phase s.target me.ch me (before ++ heard) (round_of s) r effect phase)
  with_round-Stage before told s r effect (greets a b e f q k) =
      let (d, p, h, grows) = quiet-Effect s.target (round_of s) r e f effect in
      Stage-kept before told s (with_round s r) (refl, refl, refl) refl d p h grows
        (greets a b e f q k)
  with_round-Stage before told s r effect (rests a b e f q k) =
      let (d, p, h, grows) = quiet-Effect s.target (round_of s) r e f effect in
      Stage-kept before told s (with_round s r) (refl, refl, refl) refl d p h grows
        (rests a b e f q k)
  with_round-Stage before told s r effect (stores a b e f q v k) =
      let (d, p, h, grows) = quiet-Effect s.target (round_of s) r e f effect in
      Stage-kept before told s (with_round s r) (refl, refl, refl) refl d p h grows
        (stores a b e f q v k)
