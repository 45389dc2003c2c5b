-- ===== src/Router/Serving/Publishes.antt =====
-- The read loop on the bytes that a client's writeLoop writes.
use sprut.Router.Serving.{next_round, after_message, Round, serve_step, serve_rounds}
use sprut.Router.Message.{empty_message, Message}
use sprut.Protocol.ClientMessage
use sprut.Protocol.ClientMessage.{ClientMessage}
use sprut.Router.Message.Accept.{
  IsAccepted, session, outgoing, handle_message-published, buf_body, length-buf_body,
}
use sprut.Base.{
  All, refl, ◌∙◌, append_assoc, append-nil, ap, sym, length, none, inr, ◌^◌, ◌<◌, ◌≤◌, true, ◌≡◌,
  false, ◌++◌, [], Option, ◌∷◌, ◌⊎◌, ℕ, List,
}
use sprut.Io.{running, Error}
use sprut.Router.Hex.{is_valid_hex_pub_key}
use sprut.Broker.Subject.{subject_for_client}

-- A client's message with the time at which the server takes it and its protobuf form.
pub record Posting : Type 0 where
  pub msg : ClientMessage
  pub now : ℕ
  pub wire : List ℕ

abbrev pub client_frames : List Posting → List ℕ
client_frames [] = []
client_frames (p ∷ ps) = ClientMessage.frame p.msg ++ client_frames ps

-- Rounds in which nothing closes the peer and the limiter allows a message.
abbrev pub calm : List Posting → List Round
calm [] = []
calm (p ∷ ps) = record { closing = false; allowed = true; now = p.now } ∷ calm ps

-- What NATS is given for them: subjects and data.
abbrev pub publications : List Posting → List (List ℕ × List ℕ)
publications [] = []
publications (p ∷ ps) = (subject_for_client p.msg.to, p.wire) ∷ publications ps

module _ (marshal : Message → Error ⊎ List ℕ) (nats_publish : List ℕ → List ℕ → Option Error)
    (pub_key_hex : List ℕ) (max_size : ℕ) where
  -- The server, whose buffers have `size` bytes, takes the message.
  pub record IsTaken (size : ℕ) (p : Posting) : Type 0 where
    pub sendable : ClientMessage.IsSendable p.msg
    pub to_valid : is_valid_hex_pub_key p.msg.to ≡ true
    pub total_fits : ClientMessage.total_len p.msg ≤ max_size
    pub max_fits : max_size < 2 ^ 32
    pub buf_fits : ClientMessage.total_len p.msg ≤ size
    pub is_marshalled : marshal (outgoing marshal nats_publish pub_key_hex p.msg p.now) ≡ inr p.wire
    pub is_published : nats_publish (subject_for_client p.msg.to) p.wire ≡ none

  serve_step-frame :
      (p : Posting) (rest : List ℕ) (fin : Error) (buf : List ℕ) (pooled : Message)
      (published : List (List ℕ × List ℕ))
      → IsTaken (length buf) p
      → serve_step marshal nats_publish pub_key_hex max_size
          (record { closing = false; allowed = true; now = p.now })
          (session (ClientMessage.frame p.msg ++ rest) fin buf pooled published)
        ≡ (
          running,
          session rest fin
              (buf_body p.msg buf)
              empty_message
              (published ++ ((subject_for_client p.msg.to, p.wire) ∷ [])),
        )
  unfolding serve_step after_message
  serve_step-frame p rest fin buf pooled published t = ap after_message (
      handle_message-published marshal nats_publish pub_key_hex p.msg rest fin buf pooled published
        max_size p.now p.wire accepted t.is_marshalled t.is_published)
    where
      accepted : IsAccepted p.msg max_size buf
      accepted = record {
        sendable = t.sendable;
        to_valid = t.to_valid;
        total_fits = t.total_fits;
        max_fits = t.max_fits;
        buf_fits = t.buf_fits;
      }

  -- While nothing closes the peer and the limiter allows it, the read loop takes the frames of
  -- acceptable messages one by one from the stream, publishes for each of them its wire form under its
  -- recipient's subject, in order, and goes on.
  pub serve_rounds-publishes :
      (ps : List Posting) (rest : List ℕ) (fin : Error) (buf : List ℕ) (pooled : Message)
      (published : List (List ℕ × List ℕ))
      → All (IsTaken (length buf)) ps
      → let (loop, s) =
          serve_rounds marshal nats_publish pub_key_hex max_size
            (calm ps)
            (session (client_frames ps ++ rest) fin buf pooled published) in
        (loop ≡ running)
        × (s.published ≡ published ++ publications ps)
        × (s.reader.pending ≡ rest)
        × (s.reader.fin ≡ fin)
        × (length s.buf ≡ length buf)
  unfolding serve_rounds next_round
  serve_rounds-publishes [] rest fin buf pooled published t =
      (refl, sym (append-nil published), refl, refl, refl)
  serve_rounds-publishes (p ∷ ps) rest fin buf pooled published (t, ts) =
      rw (append_assoc (ClientMessage.frame p.msg) (client_frames ps) rest) (
        rw (serve_step-frame p (client_frames ps ++ rest) fin buf pooled published t) (
          let kept = length-buf_body p.msg buf t.sendable.to_len t.buf_fits in
          let (loops, out, left, ends, len) =
            serve_rounds-publishes ps rest fin (buf_body p.msg buf) empty_message
              (published ++ ((subject_for_client p.msg.to, p.wire) ∷ [])) (rw kept ts) in
          (
            loops,
            out
                ∙ append_assoc published ((subject_for_client p.msg.to, p.wire) ∷ [])
                    (publications ps),
            left,
            ends,
            len ∙ kept,
          )))
