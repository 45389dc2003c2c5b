-- ===== src/Examples/Peer.antt =====
-- The peer of pkg/router/peer.go at concrete inputs.
use sprut.Router.Peer.{Peer, write_message}
use sprut.Router.Peer.Deadline.{IsTimed, IsGuarded, write_message-IsGuarded}
use sprut.Router.Peer.Life.{Happening, arrival, round, closing, happens, IsOrderly}
use sprut.Base.{◌+◌, ap, refl, some, arith, none, codes, [], true, ◌≡◌, false, replicate, ◌∷◌, List}
use sprut.Io.Conn.{Conn}
use sprut.Io.Ensures.{Ensures}
use sprut.Io.{running, eof}
use sprut.Router.Peer.Fresh.{fresh_peer}
use sprut.Router.Peer.Life.Orderly.{happens-Orderly}

abbrev open_conn : Conn
open_conn = record {
  reader = record { pending = []; fin = eof };
  writer = record { output = []; room = 100000 };
  deadline = some 130;
  closed = false;
  tls = none;
}

-- A peer with a full queue, whose deadline was set at the time 100.
abbrev busy_peer : Peer
busy_peer = record {
  id = replicate 32 1;
  conn = open_conn;
  pub_key_hex = replicate 64 b'1';
  subscribed = true;
  write_ch = codes "one" ∷ codes "two" ∷ [];
  capacity = 2;
  closed = false;
  write_timeout = 30;
  last_deadline = some 100;
}

busy_peer-IsTimed : IsTimed 110 busy_peer
busy_peer-IsTimed = record {
  last_known =
      λ last e. let same : 100 ≡ last = cc in (omega (arith, same), ap (λ k. some (k + 30)) same);
}

write_message-IsGuarded_example :
    Ensures (λ _. IsGuarded 110) (λ _. IsGuarded 110) (write_message 110 (codes "one") busy_peer)
write_message-IsGuarded_example =
    write_message-IsGuarded 110 (codes "one") busy_peer refl busy_peer-IsTimed

-- One message is written; of the other only a part gets through, which closes the peer.
abbrev narrow_conn : Conn
narrow_conn = record open_conn { writer = record { output = []; room = 10 } }

abbrev before_close : List Happening
before_close =
    arrival false (codes "one")
    ∷ arrival false (codes "two")
    ∷ round false 110
    ∷ round false 111
    ∷ []

happens-Orderly_example :
    let l = happens none before_close (running, fresh_peer narrow_conn (replicate 32 1) 2 30) in
    let m = happens none (arrival false (codes "three") ∷ round false 112 ∷ closing ∷ []) l in
    IsOrderly [] 2 (codes "one" ∷ codes "two" ∷ []) l
    × (l.1.closed ≡ true → (m.1.closed ≡ true) × (m.1.conn.writer.output ≡ l.1.conn.writer.output))
happens-Orderly_example =
    happens-Orderly none before_close
      (arrival false (codes "three") ∷ round false 112 ∷ closing ∷ []) narrow_conn (replicate 32 1)
      2 30 refl
