-- ===== src/Router/Setup.antt =====
-- Serve of pkg/router/router.go up to its accept loop.
pub mod Buffers
pub mod Closing
pub mod Backed
use sprut.Config
use sprut.Config.{Config}
use sprut.Router.Tls.{build_tls_config, TlsSettings}
use sprut.Broker.Connection.{BrokerConfig, new_broker}
use sprut.Base.{
  [], ◌∷◌, negsuc, length, none, inr, false, replicate, ltb, pos, inl, some, true, ℕ, ◌⊎◌,
  if◌then◌else◌, List, Bool, ℤ, Option,
}
use sprut.Io.{return, ◌>>◌, message, panic, ◌>>=◌, fail, wrap, err, ok, Outcome, Error, Proc}
use sprut.Bytes.Slices.{copy_at}
use sprut.Protocol.{server_id_size}
use sprut.Router.Auth.{auth_buf_size, off_server_id}

-- What Serve opens and has to close, and whether the channel Ready was closed.
pub record Host : Type 0 where
  pub listener_open : Bool
  pub broker_open : Bool
  pub ready : Bool

-- What Serve calls.
pub record Calls (Certificate : Type 0) : Type 0 where
  pub load_key_pair : List ℕ → List ℕ → Error ⊎ Certificate
  pub default_url : List ℕ
  pub connect : List ℕ → ℤ → ℤ → Option Error

-- The deferred closing of the listener and of the broker, where Serve returns an error.
close_listener {ℓ} : {A : Type ℓ} → Outcome Host A → Outcome Host A
close_listener (ok a h) = ok a h
close_listener (err e h) = err e (record h { listener_open = false })

close_broker {ℓ} : {A : Type ℓ} → Outcome Host A → Outcome Host A
close_broker (ok a h) = ok a h
close_broker (err e h) = err e (record h { broker_open = false })

-- The server's id in an array of 32 bytes.
unfoldable pub server_id_array : List ℕ → Error ⊎ List ℕ
server_id_array server_id =
    if ltb server_id_size (length server_id)
    then inl (
        message "server_id too long: max %d bytes, got %d" (server_id_size ∷ length server_id ∷ []))
    else inr (copy_at 0 server_id (replicate server_id_size 0))

unfoldable pub auth_buffer : List ℕ → List ℕ
auth_buffer server_id = copy_at off_server_id server_id (replicate auth_buf_size 0)

-- authSem, filled. A negative capacity panics.
unfoldable pub auth_sem : ℤ → List ℕ → Proc Host (List (List ℕ))
unfolding auth_buffer
auth_sem (pos n) server_id h = ok (replicate n (auth_buffer server_id)) h
auth_sem (negsuc n) server_id h = err (panic "makechan: size out of range") h

signal_ready : Bool → Proc Host (Unit {0})
signal_ready wanted h = if wanted then ok tt (record h { ready = true }) else ok tt h

module _ {Float Certificate : Type 0} (calls : Calls Certificate) (cfg : Config Float) where
  -- Behind the broker: the server's id, the buffers, the signal.
  with_id : Error ⊎ List ℕ → Proc Host (List (List ℕ))
  with_id (inl e) = fail e
  with_id (inr server_id) = do
    sem ← auth_sem cfg.limits.max_connections server_id
    signal_ready cfg.ready
    return sem

  with_broker : Option Error → Proc Host (List (List ℕ))
  with_broker (some e) h = err (wrap "create broker" e) h
  with_broker none h =
      close_broker
        (with_id (server_id_array cfg.server.server_id) (record h { broker_open = true }))

  broker_config : BrokerConfig
  broker_config = record {
    urls = cfg.nats.urls;
    reconnect_wait = cfg.nats.reconnect_wait;
    max_reconnects = cfg.nats.max_reconnects;
  }

  with_tls : Error ⊎ TlsSettings Certificate → Proc Host (List (List ℕ))
  with_tls (inl e) h = err (wrap "build TLS config" e) h
  with_tls (inr settings) h =
      close_listener (with_broker (new_broker calls.default_url calls.connect broker_config) h)

  -- The buffers with which the accept loop begins.
  unfoldable pub serve_setup : Proc Host (List (List ℕ))
  unfolding with_id with_broker with_tls broker_config close_listener close_broker signal_ready
  serve_setup = with_tls (build_tls_config calls.load_key_pair cfg.tls)
