-- ===== src/Router/Accepting/Served.antt =====
-- What Serve keeps from its start on.
use sprut.Router.Accepting.Sound.{IsFair, IsSound, accept_rounds-IsSound}
use sprut.Router.Accepting.{Event, accept_rounds, listening}
use sprut.Router.Setup.Buffers.{IsServing, IsRefused, serve_setup-IsServing}
use sprut.Router.Setup.{Host, Calls, serve_setup}
use sprut.Config.{Config}
use sprut.Io.Ensures.{Ensures, Ensures-map}
use sprut.Router.Message.{Message}
use sprut.Base.{pos, arith, ◌⊎◌, Option, All, Bool, ◌≡◌, List, ℕ, false}
use sprut.Io.{Error}

-- Serve from its start, with a MaxConnections that is not negative and no broker open before; each
-- connection is open as it comes in, the clocks are of this era, and there are 32 random bytes for each:
-- whatever is sent and in whatever order the handlers end, there are never more handlers and free
-- buffers than MaxConnections; every buffer keeps its size and the server's id; and whatever was
-- published is the wire form of a message within the limits, to a valid recipient, from a key that has
-- signed a challenge of this server on a connection that came in, in the visit of its handler. Or Serve
-- fails before, with no broker left open, for one of its three reasons.
pub serve-IsSound :
    {Float Certificate : Type 0} (calls : Calls Certificate) (cfg : Config Float)
    (verify : List ℕ → List ℕ → List ℕ → Bool) (marshal : Message → Error ⊎ List ℕ)
    (nats_publish : List ℕ → List ℕ → Option Error) (max_size n : ℕ) (h : Host) (es : List Event)
    → cfg.limits.max_connections ≡ pos n
    → h.broker_open ≡ false
    → All IsFair es
    → Ensures
        (λ bufs _.
          IsSound verify marshal nats_publish max_size n cfg.server.server_id es
            (accept_rounds verify marshal nats_publish max_size es (listening bufs)).1)
        (IsRefused calls cfg)
        (serve_setup calls cfg h)
serve-IsSound calls cfg verify marshal nats_publish max_size n h es many shut fair =
    Ensures-map (IsServing n cfg.server.server_id) _ (IsRefused calls cfg) (IsRefused calls cfg)
      (serve_setup calls cfg h)
      (λ bufs t v.
        accept_rounds-IsSound verify marshal nats_publish max_size n cfg.server.server_id es es
          (listening bufs) (λ e m. m) fair
          (record {
            conserved = omega (arith, v.count);
            buffers = v.buffers;
            held = tt;
            signed = tt;
          }))
      (λ e t r. r) (serve_setup-IsServing calls cfg n h many shut)
