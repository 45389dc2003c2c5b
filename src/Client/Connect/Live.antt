-- ===== src/Client/Connect/Live.antt =====
-- Connect against a server that answers as it should.
use sprut.Client.Connect.{
  Calls, connect, with_identity, configured, with_tls, dialled, authenticated, started,
}
use sprut.Client.Options.{
  ConnectOption, ConnectConfig, TlsSettings, default_config, apply_options, build_tls_config,
}
use sprut.Client.Auth.{challenge_fields}
use sprut.Client.Auth.Honest.{client_says, server_says, client_authenticates}
use sprut.Protocol.ChannelBinding.{ConnectionState, get_channel_binding}
use sprut.Protocol.ServerChallenge
use sprut.Protocol.ServerChallenge.{ServerChallenge}
use sprut.Protocol.SignedData
use sprut.Identity.{KeyPair}
use sprut.Io.Conn.{Conn}
use sprut.Io.Reads.{reader}
use sprut.Base.{
  append-nil, sym, [], ◌∙◌, pos, ◌≤◌, ap, none, length, false, some, inr, ◌≡◌, ◌⊎◌, ℕ, List,
}
use sprut.Io.{push, ok}

module _ {Full Pool Handler : Type 0} (calls : Calls Full Pool) (addr : List ℕ) (now : ℕ)
    (opts : List (ConnectOption Full Pool Handler)) where
  -- Everything that Connect calls succeeds, and on the connection that was dialled a server's
  -- challenge and success arrive.
  pub record IsAnswered (cfg : ConnectConfig Full Pool Handler) (n : ℕ)
      (challenge : ServerChallenge) (binding : List ℕ) (c : Conn) (state : ConnectionState)
      : Type 0 where
    pub keys : KeyPair
    pub tls : Full ⊎ TlsSettings Pool
    pub generated : calls.generate ≡ inr keys
    pub is_configured : apply_options opts (default_config keys) ≡ cfg
    pub built : build_tls_config calls.files cfg ≡ inr tls
    pub reached : calls.dial cfg.dial_timeout cfg.local_addr addr tls ≡ inr (c, state)
    pub is_open : c.closed ≡ false
    pub bound : get_channel_binding state ≡ inr binding
    pub sized_challenge : ServerChallenge.IsSized challenge
    pub sized : SignedData.IsSized (challenge_fields cfg.keys challenge binding)
    pub arriving : c.reader.pending ≡ server_says calls.sign cfg.keys state challenge binding
    pub room : length (client_says calls.sign cfg.keys state challenge binding) ≤ c.writer.room
    pub buffered : cfg.read_buf_size ≡ pos n

  -- Where everything that Connect calls succeeds and the server answers with a challenge and a success,
  -- Connect gives a session with the configuration and the queue asked for; the connection stays
  -- open with no deadline, with all that has come read, and the hello and the signed answer written.
  -- What the server sends behind its success comes later: what came with it would stay in the reader
  -- that authenticate throws away.
  pub connect_lem :
      (cfg : ConnectConfig Full Pool Handler) (n : ℕ) (challenge : ServerChallenge)
      (binding : List ℕ) (c : Conn) (state : ConnectionState)
      → IsAnswered cfg n challenge binding c state
      → connect calls addr now opts
        ≡ ok
            (record { cfg = cfg; capacity = n })
            (some (record c {
              reader = reader [] c.reader.fin;
              writer = push (client_says calls.sign cfg.keys state challenge binding) c.writer;
              deadline = none;
            }))
  unfolding connect with_identity configured with_tls dialled authenticated started
  connect_lem cfg n challenge binding c state a =
      ap (with_identity calls addr now opts) a.generated
      ∙ ap (configured calls addr now) a.is_configured
      ∙ ap (with_tls calls addr now cfg) a.built
      ∙ ap (dialled calls addr now cfg) a.reached
      ∙ ap (authenticated cfg) (
          client_authenticates calls.sign cfg.keys state challenge binding now cfg.dial_timeout [] c
            a.is_open a.bound a.sized_challenge a.sized (a.arriving ∙ sym (append-nil _)) a.room)
      ∙ ap
          (λ z. started cfg z (record c {
            reader = reader [] c.reader.fin;
            writer = push (client_says calls.sign cfg.keys state challenge binding) c.writer;
            deadline = none;
          }))
          a.buffered
