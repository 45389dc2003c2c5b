-- ===== src/Router/Setup/Buffers.antt =====
-- What Serve hands to its accept loop, and what it leaves open where it fails.
use mathlib.Core.Path.{sym, subst}
use sprut.Router.Setup.{
  Host, Calls, serve_setup, server_id_array, auth_buffer, auth_sem, with_id, with_broker, with_tls,
  close_listener, close_broker, signal_ready, broker_config,
}
use sprut.Config.{Config}
use sprut.Base.{
  none, Option, ltb→le, length-replicate, Bool, refl, ◌<◌, some, ltb→lt, inr, ltb, ◌⊎◌, inl,
  Bool-cases, false, pos, ◌+◌, ◌∙◌, arith, ◌++◌, ap, zero, true, suc, ◌-◌, ◌≤◌, ◌≡◌, replicate,
  drop, length, All, List, ℕ,
}
use sprut.Protocol.{server_id_size}
use sprut.Router.Auth.{auth_buf_size}
use sprut.Bytes.Slices.{slice-copy_at, copy_at-fits, length-copy_at, copy_at, slice}
use sprut.Io.{wrap, err, ok, return, ◌>>◌, and_then, Outcome, Error}
use sprut.Io.Ensures.{Ensures}
use sprut.Broker.Connection.{connect_result, new_broker, broker_url}
use sprut.Router.Tls.{settings_with, build_tls_config}

-- A buffer as authenticate wants it: of its size, with the server's id, padded with zeros, in place.
pub record IsAuthBuffer (server_id : List ℕ) (buf : List ℕ) : Type 0 where
  pub len : length buf ≡ auth_buf_size
  pub id_fits : length server_id ≤ server_id_size
  pub id_at : slice 72 104 buf ≡ server_id ++ replicate (server_id_size - length server_id) 0

-- The accept loop may begin.
pub record IsServing (n : ℕ) (server_id : List ℕ) (bufs : List (List ℕ)) (h : Host) : Type 0 where
  pub count : length bufs ≡ n
  pub buffers : All (IsAuthBuffer server_id) bufs
  pub broker_open : h.broker_open ≡ true

replicate_at : {m n : ℕ} → m ≡ n → replicate {A = ℕ} m 0 ≡ replicate n 0
replicate_at e = ap (λ k. replicate k 0) e

drop-replicate : (k n : ℕ) → drop k (replicate n 0) ≡ replicate {A = ℕ} (n - k) 0
drop-replicate zero n = replicate_at {m = n} {n = n - 0} (omega arith)
drop-replicate (suc k) zero = replicate_at {m = 0} {n = 0 - suc k} (omega arith)
drop-replicate (suc k) (suc n) =
    drop-replicate k n ∙ replicate_at {m = n - k} {n = suc n - suc k} (omega arith)

padded :
    (server_id : List ℕ)
    → length server_id ≤ server_id_size
    → copy_at 0 server_id (replicate server_id_size 0)
      ≡ server_id ++ replicate (server_id_size - length server_id) 0
padded server_id h =
    copy_at-fits 0 server_id (replicate server_id_size 0) (omega arith)
    ∙ ap (λ l. server_id ++ l)
        (drop-replicate (0 + length server_id) server_id_size
          ∙ replicate_at {m = server_id_size - (0 + length server_id)}
              {n = server_id_size - length server_id} (omega arith))

auth_buffer-IsAuthBuffer :
    (server_id : List ℕ)
    → length server_id ≤ server_id_size
    → IsAuthBuffer server_id (auth_buffer (copy_at 0 server_id (replicate server_id_size 0)))
unfolding auth_buffer
auth_buffer-IsAuthBuffer server_id h = record {
  len = length-copy_at 72 array (replicate auth_buf_size 0) (omega arith);
  id_fits = h;
  id_at =
      slice-copy_at 72 104 array (replicate auth_buf_size 0) (omega (arith, array_len))
        (omega arith)
      ∙ padded server_id h;
}
  where
    array : List ℕ
    array = copy_at 0 server_id (replicate server_id_size 0)

    array_len : length array ≡ 32
    array_len = length-copy_at 0 server_id (replicate server_id_size 0) (omega arith)

All-replicate : (P : List ℕ → Type 0) (n : ℕ) (buf : List ℕ) → P buf → All P (replicate n buf)
All-replicate P zero buf h = tt
All-replicate P (suc n) buf h = (h, All-replicate P n buf h)

module _ {Float Certificate : Type 0} (calls : Calls Certificate) (cfg : Config Float) where
  -- Why the accept loop could not begin, with the broker closed again.
  pub record IsRefused (e : Error) (h : Host) : Type 0 where
    pub broker_closed : h.broker_open ≡ false
    pub reason :
        ((x : Error) × (calls.load_key_pair cfg.tls.cert_file cfg.tls.key_file ≡ inl x))
        ⊎ (((x : Error) × (calls.connect
                  (broker_url calls.default_url cfg.nats.urls)
                  cfg.nats.reconnect_wait
                  cfg.nats.max_reconnects
                ≡ some x))
            ⊎ (server_id_size < length cfg.server.server_id))

  -- The signal, in front of buffers that are right.
  signalled :
      (n : ℕ) (bufs : List (List ℕ)) (wanted : Bool) (h : Host)
      → length bufs ≡ n
      → All (IsAuthBuffer cfg.server.server_id) bufs
      → h.broker_open ≡ true
      → Ensures
          (IsServing n cfg.server.server_id)
          IsRefused
          (close_broker (and_then (signal_ready wanted h) (λ _. return bufs)))
  unfolding close_broker signal_ready
  signalled n bufs true h count good broker = record {
    count = count;
    buffers = good;
    broker_open = broker;
  }
  signalled n bufs false h count good broker = record {
    count = count;
    buffers = good;
    broker_open = broker;
  }

  with_id-IsServing :
      (n : ℕ) (h : Host)
      → cfg.limits.max_connections ≡ pos n
      → h.broker_open ≡ true
      → Ensures
          (IsServing n cfg.server.server_id)
          IsRefused
          (close_broker (with_id calls cfg (server_id_array cfg.server.server_id) h))
  unfolding with_id close_broker server_id_array auth_sem
  with_id-IsServing n h count broker =
      elim (Bool-cases (ltb server_id_size (length cfg.server.server_id))) [
        | inl long ↦ rw long (record { broker_closed = refl; reason = inr (inr (ltb→lt _ _ long)) })
        | inr short ↦ rw short (
            subst
              (λ z. Ensures (IsServing n cfg.server.server_id) IsRefused (
                close_broker
                  (and_then (auth_sem z array h) (λ sem. signal_ready cfg.ready >> return sem))))
              (sym count)
              (signalled n (replicate n (auth_buffer array)) cfg.ready h
                (length-replicate n (auth_buffer array))
                (All-replicate (IsAuthBuffer cfg.server.server_id) n (auth_buffer array)
                  (auth_buffer-IsAuthBuffer cfg.server.server_id (ltb→le _ _ short)))
                broker))
      ]
    where
      array : List ℕ
      array = copy_at 0 cfg.server.server_id (replicate server_id_size 0)

  close_listener-Ensures :
      (n : ℕ) (o : Outcome Host (List (List ℕ)))
      → Ensures (IsServing n cfg.server.server_id) IsRefused o
      → Ensures (IsServing n cfg.server.server_id) IsRefused (close_listener o)
  unfolding close_listener
  close_listener-Ensures n (ok a h) v = v
  close_listener-Ensures n (err e h) v = record {
    broker_closed = v.broker_closed;
    reason = v.reason;
  }

  -- Serve with a MaxConnections that is not negative: the accept loop begins with that many buffers,
  -- each of the size that authenticate wants and with the server's id in its place, padded with zeros,
  -- while the broker is connected; or Serve returns an error, with no broker left open, because the
  -- certificates did not load, NATS could not be reached, or the id has more than 32 bytes.
  pub serve_setup-IsServing :
      (n : ℕ) (h : Host)
      → cfg.limits.max_connections ≡ pos n
      → h.broker_open ≡ false
      → Ensures (IsServing n cfg.server.server_id) IsRefused (serve_setup calls cfg h)
  unfolding serve_setup with_tls with_broker broker_config build_tls_config settings_with new_broker
      connect_result
  serve_setup-IsServing n h count shut =
      by_tls (calls.load_key_pair cfg.tls.cert_file cfg.tls.key_file) refl
    where
      by_broker :
          (o : Option Error)
          → calls.connect
              (broker_url calls.default_url cfg.nats.urls)
              cfg.nats.reconnect_wait
              cfg.nats.max_reconnects
            ≡ o
          → Ensures
              (IsServing n cfg.server.server_id)
              IsRefused
              (close_listener (with_broker calls cfg (connect_result o) h))
      by_broker none e =
          close_listener-Ensures n _
            (with_id-IsServing n (record h { broker_open = true }) count refl)
      by_broker (some x) e =
          close_listener-Ensures n (err (wrap "create broker" (wrap "connect to NATS" x)) h)
            (record { broker_closed = shut; reason = inr (inl (x, e)) })

      by_tls :
          (o : Error ⊎ Certificate)
          → calls.load_key_pair cfg.tls.cert_file cfg.tls.key_file ≡ o
          → Ensures
              (IsServing n cfg.server.server_id)
              IsRefused
              (with_tls calls cfg (settings_with cfg.tls.min_version o) h)
      by_tls (inl x) e = record { broker_closed = shut; reason = inl (x, e) }
      by_tls (inr cert) e = by_broker _ refl
