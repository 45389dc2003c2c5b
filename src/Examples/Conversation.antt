-- ===== src/Examples/Conversation.antt =====
-- A conversation with the echo bot at a concrete input.
use sprut.Examples.Delivery.{
  carol, dave, here, two_postings, carol_run, dave_run, dave_peer, big_buf, two-IsTaken,
  passed_on-in_order, big_buf_len,
}
use sprut.Delivery.{Setting}
use sprut.Delivery.Echo.{Way, conversation, conversation-echoes}
use sprut.Programs.{print_int64, decimal}
use sprut.Programs.EchoBot.{Bot}
use sprut.Router.Hex.{is_hex, all_hex, is_valid_hex_pub_key}
use sprut.Bytes.{put_be}
use sprut.Base.{
  refl, length-append, arith, codes, ◌++◌, ℕ, ◌≡◌, replicate, [], ◌∷◌, false, inr, List, length,
  map, take, drop,
}
use sprut.Router.Serving.Publishes.{Posting}
use sprut.Delivery.InOrder.{IsPosted}

-- The bot is dave; its ids have six bytes.
abbrev back_there : Setting
back_there = record here {
  sender = dave;
  unmarshal = λ bytes. inr (record {
    from = take 64 bytes;
    to = take 64 (drop 64 bytes);
    id = take 6 (drop 128 bytes);
    payload = drop 134 bytes;
    unix_date_time = 1700000000;
  });
}

abbrev answer_of : List ℕ → List ℕ → Posting
answer_of id payload = record {
  msg = record { to = carol; msg_id = id; payload = payload };
  now = 1700000000;
  wire = dave ++ (carol ++ (id ++ payload));
}

abbrev two_answers : List Posting
two_answers =
    answer_of (codes "echo-1") (codes "Echo: hello")
    ∷ answer_of (codes "echo-2") (codes "Echo: again")
    ∷ []

abbrev there : Way
there = record {
  buf = big_buf;
  from_run = record carol_run { send_closed = false };
  peer = dave_peer;
  to_run = dave_run;
}

abbrev back : Way
back = record {
  buf = big_buf;
  from_run = record carol_run { send_closed = false };
  peer = record dave_peer { id = replicate 32 0xcc; pub_key_hex = carol };
  to_run = dave_run;
}

abbrev new_bot : Bot
new_bot = record { count = 0; sent = []; send_closed = false; printed = [] }

answer-IsPosted :
    (id payload : List ℕ)
    → length id ≡ 6
    → length payload ≡ 11
    → back_there.unmarshal (dave ++ (carol ++ (id ++ payload)))
      ≡ inr (record {
        from = dave;
        to = carol;
        id = id;
        payload = payload;
        unix_date_time = 1700000000;
      })
    → IsPosted back_there (length big_buf) carol (answer_of id payload)
answer-IsPosted id payload h l e = record {
  taken = record {
    sendable = record { to_len = refl; msg_id_fits = omega arith; total_fits = omega arith };
    to_valid = unfold is_valid_hex_pub_key all_hex is_hex in refl;
    total_fits = omega arith;
    max_fits = omega arith;
    buf_fits = omega (arith, big_buf_len);
    is_marshalled = refl;
    is_published = refl;
  };
  addressed = refl;
  wire_fits = omega (arith, length-append id payload);
  parsed = e;
}

conversation-echoes_example :
    map {B = List ℕ × List ℕ}
      (λ m. (m.from, m.payload))
      (conversation here back_there two_postings there new_bot two_answers back)
    ≡ (dave, codes "Echo: hello") ∷ (dave, codes "Echo: again") ∷ []
unfolding put_be print_int64 decimal
conversation-echoes_example =
    conversation-echoes here back_there two_postings two_answers there back new_bot
      passed_on-in_order passed_on-in_order
      (
        record { taken = two-IsTaken.0; addressed = refl; wire_fits = omega arith; parsed = refl },
        (
          record {
            taken = two-IsTaken.1.0;
            addressed = refl;
            wire_fits = omega arith;
            parsed = refl;
          },
          tt,
        ),
      )
      (
        answer-IsPosted (codes "echo-1") (codes "Echo: hello") refl refl refl,
        (answer-IsPosted (codes "echo-2") (codes "Echo: again") refl refl refl, tt),
      )
      (record { going = refl; queue = refl; open_yet = refl; unsent = refl; room = omega arith })
      (record { going = refl; queue = refl; open_yet = refl; unsent = refl; room = omega arith })
      (record {
        going = refl;
        queue = refl;
        open_yet = refl;
        unsent = refl;
        capacity = omega arith;
        room = omega arith;
        rounds = refl;
      })
      (record {
        going = refl;
        queue = refl;
        open_yet = refl;
        unsent = refl;
        capacity = omega arith;
        room = omega arith;
        rounds = refl;
      })
      refl refl refl refl refl refl refl (omega arith) refl (omega arith, (omega arith, tt)) refl
