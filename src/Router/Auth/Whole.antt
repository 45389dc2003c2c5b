-- ===== src/Router/Auth/Whole.antt =====
-- authenticate as a whole: what either outcome means.
use sprut.Base.{◌∙◌, ap, ◌+◌, some, inr, none, length, false, ◌≡◌, Bool, ℕ, List}
use sprut.Io.Conn.{logged, set_deadline-open}
use sprut.Router.Auth.{
  exchange, reset_deadline, auth_buf_size, without_deadline, Env, authenticate, AuthState,
}
use sprut.Router.Auth.Soundness.{exchange-Ensures, Accepted, Intact}
use sprut.Router.Auth.Verified.{IsTimely}
use sprut.Io.Ensures.{Ensures}
use sprut.Io.{err, ok, Outcome}

reset-Intact :
    (s s' : AuthState)
    → s.conn.closed ≡ false
    → Intact s s'
    → Intact s (record s' { conn = without_deadline s'.conn })
      × ((without_deadline s'.conn).deadline ≡ none)
reset-Intact s s' open_yet k =
    let e : without_deadline s'.conn ≡ record s'.conn { deadline = none } =
      ap logged (set_deadline-open none s'.conn (k.closed ∙ open_yet)) in
    (
      record {
        len = k.len;
        server_id = k.server_id;
        tls = ap (λ c. c.tls) e ∙ k.tls;
        closed = ap (λ c. c.closed) e ∙ k.closed;
      },
      ap (λ c. c.deadline) e,
    )

module _ (verify : List ℕ → List ℕ → List ℕ → Bool) where
  -- On an open connection, with a buffer of the size that the server makes them, 32 random bytes and
  -- clocks of this era: if authenticate succeeds, then the key at the front of the buffer has signed
  -- the data made of this challenge, which are the random bytes, of the timestamp, of the server's id,
  -- of that key and of this TLS connection's binding, and the timestamp is not ahead of the clock nor
  -- older than the lifetime. On success and on every error the buffer keeps its length and the
  -- server's id, and the connection is left with no deadline.
  pub authenticate-Accepted :
      (env : Env) (s : AuthState)
      → s.conn.closed ≡ false
      → length s.buf ≡ auth_buf_size
      → IsTimely env
      → ((random : List ℕ) → env.random ≡ inr random → length random ≡ 32)
      → Ensures
          (λ _ s'. Accepted verify env s s' × (s'.conn.deadline ≡ none))
          (λ _ s'. Intact s s' × (s'.conn.deadline ≡ none))
          (authenticate verify env s)
  unfolding authenticate
  authenticate-Accepted env s open_yet h t r =
      rw (set_deadline-open (some (env.start + env.timeout)) s.conn open_yet)
        (after (exchange verify env s1) (exchange-Ensures verify env s1 t r h))
    where
      s1 : AuthState
      s1 = record s { conn = record s.conn { deadline = some (env.start + env.timeout) } }

      widen : (s' : AuthState) → Intact s1 s' → Intact s s'
      widen s' k = record { len = k.len; server_id = k.server_id; tls = k.tls; closed = k.closed }

      after :
          (o : Outcome AuthState (Unit {0}))
          → Ensures (λ _. Accepted verify env s1) (λ _. Intact s1) o
          → Ensures
              (λ _ s'. Accepted verify env s s' × (s'.conn.deadline ≡ none))
              (λ _ s'. Intact s s' × (s'.conn.deadline ≡ none))
              (reset_deadline o)
      after (ok a s') v =
          let (k, d) = reset-Intact s s' open_yet (widen s' v.intact) in
          (
            record {
              intact = k;
              random = v.random;
              drawn = v.drawn;
              challenge = v.challenge;
              checked = v.checked;
            },
            d,
          )
      after (err e s') v = reset-Intact s s' open_yet (widen s' v)
