-- ===== src/Examples/Delivery.antt =====
-- Messages on their way through the program, at concrete inputs.
use sprut.Delivery.{Setting, journey, received}
use sprut.Delivery.InOrder.{journey-delivers}
use sprut.Router.Peer.Life.{Happening, arrival, round, arrived}
use sprut.Router.Peer.Fresh.{fresh_peer}
use sprut.Delivery.Beginning.{IsBeginning, recipient, recipient-IsBeginning}
use sprut.Delivery.Disconnect.{after_one, after_one-closed}
use sprut.Router.Serving.{serve_rounds}
use sprut.Router.Serving.Origin.{IsGrown, serve_rounds-IsGrown}
use sprut.Router.Serving.Publishes.{Posting, IsTaken, calm}
use sprut.Router.Message.Accept.{session}
use sprut.Client.Loops.{Run}
use sprut.Router.Peer.{Peer}
use sprut.Base.{
  drop, take, inr, refl, ap, ◌⊎◌, map, length-replicate, ◌≤◌, Option, ℕ, true, ◌≡◌, ◌∷◌, pos, arith,
  false, [], List, All, replicate, ◌++◌, none, codes, length,
}
use sprut.Io.Conn.{Conn}
use sprut.Bytes.{put_be}
use sprut.Router.Message.{empty_message, Message}
use sprut.Io.{stopped, eof, Error}
use sprut.Router.Hex.{is_hex, all_hex, is_valid_hex_pub_key}
use sprut.Client.Loops.Reading.{messages}

-- A stand-in for protobuf: sender and recipient have 64 bytes, the id two, and a fixed time.
abbrev pub join_fields : Message → Error ⊎ List ℕ
join_fields m = inr (m.from ++ (m.to ++ (m.id ++ m.payload)))

abbrev split_fields : List ℕ → Error ⊎ Message
split_fields bytes = inr (record {
  from = take 64 bytes;
  to = take 64 (drop 64 bytes);
  id = take 2 (drop 128 bytes);
  payload = drop 130 bytes;
  unix_date_time = 1700000000;
})

abbrev pub taken_by_nats : List ℕ → List ℕ → Option Error
taken_by_nats subject body = none

-- A stand-in for NATS with a single subject in use.
abbrev passed_on : List (List ℕ × List ℕ) → List ℕ → List (List ℕ)
passed_on pubs subject = map (λ p. p.1) pubs

pub passed_on-in_order :
    (subject : List ℕ) (bodies : List (List ℕ))
    → passed_on (map (λ b. (subject, b)) bodies) subject ≡ bodies
passed_on-in_order subject [] = refl
passed_on-in_order subject (b ∷ bodies) = ap (◌∷◌ b) (passed_on-in_order subject bodies)

abbrev pub carol : List ℕ
carol = replicate 64 b'c'

abbrev pub dave : List ℕ
dave = replicate 64 b'd'

abbrev pub here : Setting
here = record {
  marshal = join_fields;
  unmarshal = split_fields;
  nats_publish = taken_by_nats;
  nats_deliver = passed_on;
  unsubscribe = none;
  max_size = 65536;
  write_timeout = pos 30;
  clock = λ n. 1700000000;
  peer_times = 1700000000 ∷ 1700000001 ∷ [];
  sender = carol;
}

abbrev posting : List ℕ → List ℕ → Posting
posting id payload = record {
  msg = record { to = dave; msg_id = id; payload = payload };
  now = 1700000000;
  wire = carol ++ (dave ++ (id ++ payload));
}

abbrev pub two_postings : List Posting
two_postings = posting (codes "m1") (codes "hello") ∷ posting (codes "m2") (codes "again") ∷ []

abbrev pub idle_conn : Conn
idle_conn = record {
  reader = record { pending = []; fin = eof };
  writer = record { output = []; room = 1000 };
  deadline = none;
  closed = false;
  tls = none;
}

abbrev pub carol_run : Run
carol_run = record {
  conn = idle_conn;
  close_ch = false;
  errors = [];
  recv = [];
  send =
      record { to = dave; msg_id = codes "m1"; payload = codes "hello" }
      ∷ record { to = dave; msg_id = codes "m2"; payload = codes "again" }
      ∷ [];
  send_closed = true;
}

abbrev pub dave_run : Run
dave_run = record carol_run { send = []; send_closed = false }

abbrev pub dave_peer : Peer
dave_peer = record {
  id = replicate 32 0xdd;
  conn = idle_conn;
  pub_key_hex = dave;
  subscribed = true;
  write_ch = [];
  capacity = 1000;
  closed = false;
  write_timeout = 30;
  last_deadline = none;
}

posting-IsTaken :
    (id payload : List ℕ)
    → length id ≡ 2
    → length payload ≤ 65468
    → (size : ℕ) → 65536 ≤ size
    → IsTaken join_fields taken_by_nats carol 65536 size (posting id payload)
posting-IsTaken id payload h l size k = record {
  sendable = record { to_len = refl; msg_id_fits = omega arith; total_fits = omega arith };
  to_valid = unfold is_valid_hex_pub_key all_hex is_hex in refl;
  total_fits = omega arith;
  max_fits = omega arith;
  buf_fits = omega arith;
  is_marshalled = refl;
  is_published = refl;
}

abbrev pub big_buf : List ℕ
big_buf = replicate 65536 0

pub big_buf_len : length big_buf ≡ 65536
big_buf_len = length-replicate {A = ℕ} 65536 0

pub two-IsTaken : All (IsTaken join_fields taken_by_nats carol 65536 (length big_buf)) two_postings
two-IsTaken = (
  posting-IsTaken (codes "m1") (codes "hello") refl (omega arith) _ (omega (arith, big_buf_len)),
  (
    posting-IsTaken (codes "m2") (codes "again") refl (omega arith) _ (omega (arith, big_buf_len)),
    tt,
  ),
)

serve_rounds-IsGrown_example :
    IsGrown join_fields taken_by_nats carol 65536 2 []
      (serve_rounds join_fields taken_by_nats carol 65536
        (calm two_postings)
        (session (1 ∷ 2 ∷ 3 ∷ []) eof (replicate 100 0) empty_message [])).1.published
serve_rounds-IsGrown_example =
    serve_rounds-IsGrown join_fields taken_by_nats carol 65536 (calm two_postings)
      (session (1 ∷ 2 ∷ 3 ∷ []) eof (replicate 100 0) empty_message [])

journey-delivers_example :
    journey here two_postings big_buf carol_run dave_peer dave_run
    ≡ dave_run.recv ++ messages (received here two_postings)
unfolding put_be
journey-delivers_example =
    journey-delivers here two_postings big_buf carol_run dave_peer dave_run passed_on-in_order
      (
        record { taken = two-IsTaken.0; addressed = refl; wire_fits = omega arith; parsed = refl },
        (
          record {
            taken = two-IsTaken.1.0;
            addressed = refl;
            wire_fits = omega arith;
            parsed = refl;
          },
          tt,
        ),
      )
      (record { going = refl; queue = refl; open_yet = refl; unsent = refl; room = omega arith })
      (record {
        going = refl;
        queue = refl;
        open_yet = refl;
        unsent = refl;
        capacity = omega arith;
        room = omega arith;
        rounds = refl;
      })
      refl

-- A payload that the server takes and that is too long once the sender's key stands in front of it.
abbrev big_payload : List ℕ
big_payload = replicate 65468 0

big_payload_len : length big_payload ≡ 65468
big_payload_len = length-replicate {A = ℕ} 65468 0

after_one-closed_example :
    let (loop, r) =
      after_one here 1700000000 (posting (codes "m1") big_payload) big_buf dave_peer in
    (loop ≡ stopped) × (r.closed ≡ true) × (r.conn.writer.output ≡ dave_peer.conn.writer.output)
after_one-closed_example =
    after_one-closed here 1700000000 (posting (codes "m1") big_payload) big_buf dave_peer
      passed_on-in_order
      (posting-IsTaken (codes "m1") big_payload refl (omega (arith, big_payload_len)) _
        (omega (arith, big_buf_len)))
      refl (omega (arith, big_payload_len)) refl refl (omega arith)

-- The connection breaks in the second of two messages, and a third finds the peer closed.
abbrev broken_conn : Conn
broken_conn = record idle_conn { writer = record { output = []; room = 200 } }

abbrev wire : List ℕ → List ℕ
wire id = carol ++ (dave ++ (id ++ codes "hello"))

abbrev broken_life : List Happening
broken_life =
    arrival false (wire (codes "m1"))
    ∷ arrival false (wire (codes "m2"))
    ∷ round false 1700000000
    ∷ round false 1700000001
    ∷ arrival false (wire (codes "m3"))
    ∷ []

recipient-IsBeginning_example :
    IsBeginning split_fields
      (arrived broken_life)
      []
      (recipient true none none split_fields
        (fresh_peer broken_conn (replicate 32 0xdd) 1000 30)
        broken_life
        eof
        ((false, false) ∷ (false, false) ∷ [])
        dave_run).recv
recipient-IsBeginning_example =
    recipient-IsBeginning true none none split_fields broken_conn (replicate 32 0xdd) 1000 30
      broken_life eof ((false, false) ∷ (false, false) ∷ []) dave_run refl refl
      (omega arith, (omega arith, (omega arith, tt)))
