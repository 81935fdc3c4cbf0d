-- ===== src/Broadcast/Capacity.antt =====
-- hooks/broadcast/manager.go, Broadcast: the room in channels.
use go_fsm.Base.{
  ℕ, suc, ◌≤◌, ◌≡◌, refl, ap, String, Bool, true, false, some, List, [], ◌∷◌, ◌++◌, leb, nat_eq,
  arith, leb→le, le→leb,
}
use go_fsm.Base.Lists.{length}
use go_fsm.Broadcast.Delivery.{
  Chan, with_chan, is_ready, put, send, take_from, receive, Round, Event, happen,
}
use go_fsm.Broadcast.Happens.{
  with_chan_all, Happens, sends_now, skips, launches, delivers, abandons, expires, takes, leaves,
  happen-Happens,
}

abbrev pub IsWithin : Chan → Type 0
IsWithin c = length c.buffer ≤ c.capacity

abbrev pub AreWithin : (ℕ → Chan) → Type 0
AreWithin chans = (k : ℕ) → IsWithin (chans k)

length-snoc : (xs : List String) (x : String) → length (xs ++ x ∷ []) ≡ suc (length xs)
length-snoc [] x = refl
length-snoc (y ∷ xs) x = ground (arith, length-snoc xs x)

put-IsWithin :
    (b : Bool) (c : Chan) (v : String)
    → leb 1 c.waiting ≡ b
    → is_ready c ≡ true
    → IsWithin c
    → IsWithin (put b c v)
unfolding put
put-IsWithin true c v h ready w = w
put-IsWithin false c v h ready w =
    let room : leb (suc (length c.buffer)) c.capacity ≡ true = ground (arith, h, ready) in
    omega (arith, length-snoc c.buffer v, leb→le (suc (length c.buffer)) c.capacity room)

pub send-IsWithin : (c : Chan) (v : String) → is_ready c ≡ true → IsWithin c → IsWithin (send c v)
unfolding send
send-IsWithin c v ready w = put-IsWithin (leb 1 c.waiting) c v refl ready w

take_from-IsWithin :
    (buffer : List String) (c : Chan)
    → c.buffer ≡ buffer
    → IsWithin c
    → IsWithin (take_from buffer c)
unfolding take_from
take_from-IsWithin [] c q w = w
take_from-IsWithin (v ∷ rest) c q w = omega (arith, ap length q, w)

pub receive-IsWithin : (c : Chan) → IsWithin c → IsWithin (receive c)
unfolding receive
receive-IsWithin c w = take_from-IsWithin c.buffer c refl w

take_from-is_ready :
    (buffer : List String) (c : Chan)
    → c.buffer ≡ buffer
    → IsWithin c
    → is_ready (take_from buffer c) ≡ true
unfolding take_from
take_from-is_ready [] c q w = ground (arith, le→leb 1 (suc c.waiting) (omega arith))
take_from-is_ready (v ∷ rest) c q w =
    let room : leb (suc (length rest)) c.capacity ≡ true =
      le→leb (suc (length rest)) c.capacity (omega (arith, ap length q, w)) in
    ground (arith, room)

-- Who receives makes room for a send.
pub receive-is_ready : (c : Chan) → IsWithin c → is_ready (receive c) ≡ true
unfolding receive
receive-is_ready c w = take_from-is_ready c.buffer c refl w

pub sent-AreWithin :
    (chans : ℕ → Chan) (ch : ℕ) (state : String)
    → is_ready (chans ch) ≡ true
    → AreWithin chans
    → AreWithin (with_chan chans ch (send (chans ch) state))
sent-AreWithin chans ch state n w =
    with_chan_all IsWithin chans ch _ w (send-IsWithin (chans ch) state n (w ch))

pub happen-AreWithin :
    (state : String) (event : Event) (r r' : Round)
    → happen state event r ≡ some r'
    → AreWithin r.chans
    → AreWithin r'.chans
happen-AreWithin state event r r' h w =
    Happens-AreWithin event r r' (happen-Happens state r r' event h) w
  where
    Happens-AreWithin :
        (event : Event) (r r' : Round)
        → Happens state r event r'
        → AreWithin r.chans
        → AreWithin r'.chans
    Happens-AreWithin _ r _ (sends_now sub rest q z n) w = sent-AreWithin r.chans sub.ch state n w
    Happens-AreWithin _ r _ (skips sub rest q z) w = w
    Happens-AreWithin _ r _ (launches sub rest q z) w = w
    Happens-AreWithin _ r _ (delivers i sub others q n) w = sent-AreWithin r.chans sub.ch state n w
    Happens-AreWithin _ r _ (abandons i sub others q n) w = w
    Happens-AreWithin _ r _ (expires i sub others q n) w = w
    Happens-AreWithin _ r _ (takes k) w =
        with_chan_all IsWithin r.chans k _ w (receive-IsWithin (r.chans k) (w k))
    Happens-AreWithin _ r _ (leaves i) w = w
