-- ===== src/Router/Peer/Fresh.antt =====
-- What newPeer gives.
use sprut.Router.Peer.{Peer, new_peer, subscribe_or}
use sprut.Router.Hex.{encode_to_string}
use sprut.Broker.Connection.{new_subscriber}
use sprut.Io.Conn.{Conn}
use sprut.Base.{refl, some, inr, ◌⊎◌, inl, none, ◌≡◌, false, [], Option, true, ℕ, List}
use sprut.Io.{Error}

abbrev pub fresh_peer : Conn → List ℕ → ℕ → ℕ → Peer
fresh_peer conn id write_buffer_size write_timeout = record {
  id = id;
  conn = conn;
  pub_key_hex = encode_to_string id;
  subscribed = true;
  write_ch = [];
  capacity = write_buffer_size;
  closed = false;
  write_timeout = write_timeout;
  last_deadline = none;
}

-- Either nobody could subscribe, or the peer has the key's name, and an empty queue.
pub new_peer_cases :
    (subscribe : List ℕ → Option Error) (conn : Conn) (id : List ℕ) (size timeout : ℕ)
    → ((e : Error) × (new_peer subscribe conn id size timeout ≡ inl e))
      ⊎ (new_peer subscribe conn id size timeout ≡ inr (fresh_peer conn id size timeout))
unfolding new_peer subscribe_or
new_peer_cases subscribe conn id size timeout =
    by_result (new_subscriber subscribe (encode_to_string id))
  where
    by_result :
        (o : Option Error)
        → ((e : Error) × (subscribe_or (fresh_peer conn id size timeout) o ≡ inl e))
          ⊎ (subscribe_or (fresh_peer conn id size timeout) o
              ≡ inr (fresh_peer conn id size timeout))
    by_result none = inr refl
    by_result (some e) = inl (_, refl)
