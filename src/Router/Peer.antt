-- ===== src/Router/Peer.antt =====
-- pkg/router/peer.go. The select statements take a `pick`: what the scheduler chooses where more than
-- one case is ready. NATS' Subscribe and Unsubscribe are parameters by their results.
pub mod Queue
pub mod Deadline
pub mod Oversize
pub mod Sending
pub mod Fresh
pub mod Shown
pub mod Life
use sprut.Protocol.ServerMessage
use sprut.Base.{
  ◌-◌, length, inl, none, ◌||◌, ◌+◌, ◌/◌, false, ltb, inr, ◌&&◌, [], ◌∷◌, if◌then◌else◌, ◌⊎◌, some,
  ◌++◌, true, Option, ℕ, List, Bool,
}
use sprut.Io.{stopped, running, Loop, wrap_text, wrap, err, ok, ◌>>◌, Error, Proc, Outcome}
use sprut.Io.Conn.{set_deadline, writing, Conn}
use sprut.Router.Hex.{encode_to_string}
use sprut.Broker.Subject.{subject_for_client}
use sprut.Broker.Connection.{new_subscriber}

-- The channel `write_ch` is the list of queued messages, at most `capacity` long; `closed` says that
-- closeOnce has run, so that closeCh is closed; `last_deadline` is `none` for the zero time.
pub record Peer : Type 0 where
  pub id : List ℕ
  pub conn : Conn
  pub pub_key_hex : List ℕ
  pub subscribed : Bool
  pub write_ch : List (List ℕ)
  pub capacity : ℕ
  pub closed : Bool
  pub write_timeout : ℕ
  pub last_deadline : Option ℕ

subscribe_or : Peer → Option Error → Error ⊎ Peer
subscribe_or p none = inr p
subscribe_or p (some e) = inl (wrap "create subscriber" e)

-- newPeer; `subscribe` is the result of NATS' Subscribe for a subject.
unfoldable pub new_peer : (List ℕ → Option Error) → Conn → List ℕ → ℕ → ℕ → Error ⊎ Peer
unfolding subscribe_or
new_peer subscribe conn id write_buffer_size write_timeout =
    let pub_key_hex = encode_to_string id in
    subscribe_or
      (record {
        id = id;
        conn = conn;
        pub_key_hex = pub_key_hex;
        subscribed = true;
        write_ch = [];
        capacity = write_buffer_size;
        closed = false;
        write_timeout = write_timeout;
        last_deadline = none;
      })
      (new_subscriber subscribe pub_key_hex)

-- Close, by closeOnce: `unsubscribe` is the result of Unsubscribe, whose error is only logged.
unfoldable pub close : Option Error → Peer → Peer
close unsubscribe p = if p.closed then p else record p {
  closed = true;
  subscribed = elim unsubscribe [ none ↦ false | some e ↦ p.subscribed ];
  conn = record p.conn { closed = true };
}

-- `p.writeCh <- msg.Data`
unfoldable pub enqueue : List ℕ → Peer → Peer
enqueue body p = record p { write_ch = p.write_ch ++ (body ∷ []) }

-- handleNATSMessage. On a closed peer with room in the channel either case may be taken.
unfoldable pub handle_nats_message : Bool → Option Error → List ℕ → Peer → Peer
unfolding enqueue
handle_nats_message pick unsubscribe body p =
    if ltb (length p.write_ch) p.capacity
    then (if p.closed && pick then p else enqueue body p)
    else (if p.closed then p else close unsubscribe p)

-- The batched update of the deadline. `none` stands for a last deadline of the zero time, which lies
-- further back than any timeout.
unfoldable pub is_stale : ℕ → ℕ → Option ℕ → Bool
is_stale now timeout none = true
is_stale now timeout (some last) = ltb (timeout / 2) (now - last)

refreshed : ℕ → Peer → Outcome Conn (Unit {0}) → Outcome Peer (Unit {0})
refreshed now p (ok a c) = ok tt (record p { conn = c; last_deadline = some now })
refreshed now p (err e c) = err (wrap "set write deadline" e) (record p { conn = c })

unfoldable pub refresh_deadline : ℕ → Proc Peer (Unit {0})
unfolding refreshed is_stale
refresh_deadline now p =
    if is_stale now p.write_timeout p.last_deadline
    then refreshed now p (set_deadline (some (now + p.write_timeout)) p.conn)
    else ok tt p

encoded : Peer → Outcome Conn (Unit {0}) → Outcome Peer (Unit {0})
encoded p (ok a c) = ok tt (record p { conn = c })
encoded p (err e c) = err (wrap "encode server message" e) (record p { conn = c })

unfoldable pub send_frame : List ℕ → Proc Peer (Unit {0})
unfolding encoded
send_frame body p = encoded p (writing (ServerMessage.encode (record { body = body })) p.conn)

-- writeMessage.
unfoldable pub write_message : ℕ → List ℕ → Proc Peer (Unit {0})
unfolding refresh_deadline send_frame
write_message now body = do refresh_deadline now; send_frame body

looped : Option Error → Outcome Peer (Unit {0}) → Loop × Peer
looped unsubscribe (ok a p) = (running, p)
looped unsubscribe (err e p) = (stopped, close unsubscribe p)

take_next : Option Error → ℕ → Peer → List (List ℕ) → Loop × Peer
take_next unsubscribe now p [] = (running, p)
take_next unsubscribe now p (body ∷ rest) =
    looped unsubscribe (write_message now body (record p { write_ch = rest }))

is_empty : List (List ℕ) → Bool
is_empty [] = true
is_empty (x ∷ xs) = false

-- One round of writeLoop. On an open peer with nothing queued it waits.
unfoldable pub write_step : Bool → Option Error → ℕ → Peer → Loop × Peer
unfolding looped take_next is_empty
write_step pick unsubscribe now p =
    if p.closed && (pick || is_empty p.write_ch)
    then (stopped, p)
    else take_next unsubscribe now p p.write_ch
