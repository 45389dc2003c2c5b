-- ===== src/Client/Loops/Reading.antt =====
-- What readLoop delivers when nothing closes the connection under it.
use sprut.Protocol.{max_message_size}
use sprut.Io.Reads.{reader}
use sprut.Client.Loops.{
  close_reported, close_all, returned, read_failed, delivered, meanwhile, decoded, read_step, Run,
}
use sprut.Protocol.ServerMessage
use sprut.Protocol.ServerMessage.{ServerMessage}
use sprut.Router.Message.{Message}
use sprut.Io.{is_eof, wrap, err, eof, Error, stopped, running, read_full, Loop}
use sprut.Base.{
  refl, append_assoc, inr, ◌&&◌, ◌∷◌, ap, ◌∙◌, if_false, append-nil, sym, zero, ◌++◌, false, ◌≤◌,
  none, All, length, true, suc, [], ◌⊎◌, ◌≡◌, ℕ, List, Bool,
}
use sprut.Io.Conn.{reading_back, reading-Reads, Conn, reading}

next : (Run → Loop × Run) → Loop × Run → Loop × Run
next f (running, r) = f r
next f (stopped, r) = (stopped, r)

-- At most `n` rounds of readLoop, with a Close of the connection that succeeds.
pub read_rounds : Bool → (List ℕ → Error ⊎ Message) → Bool → ℕ → Run → Loop × Run
unfolding next
read_rounds on_error unmarshal pick zero r = (running, r)
read_rounds on_error unmarshal pick (suc n) r =
    next (read_rounds on_error unmarshal pick n) (read_step on_error none unmarshal pick false r)

-- The wire form of messages, and the messages themselves.
abbrev pub frames : List (List ℕ × Message) → List ℕ
frames [] = []
frames ((b, m) ∷ rest) = ServerMessage.frame (record { body = b }) ++ frames rest

abbrev pub messages : List (List ℕ × Message) → List Message
messages [] = []
messages ((b, m) ∷ rest) = m ∷ messages rest

-- A message that may be framed and whose bytes are its wire form.
abbrev pub Readable : (List ℕ → Error ⊎ Message) → List ℕ × Message → Type 0
Readable unmarshal (b, m) = (length b ≤ max_message_size) × (unmarshal b ≡ inr m)

decode_eof :
    (c : Conn)
    → c.reader.pending ≡ []
    → c.reader.fin ≡ eof
    → reading ServerMessage.decode c
      ≡ err (wrap "read total len" eof) (record c { reader = reader [] eof })
unfolding reading ServerMessage.decode read_full
decode_eof c empty ended =
    ap (λ l. reading_back c (ServerMessage.decode (reader l c.reader.fin))) empty
    ∙ ap (λ e. reading_back c (ServerMessage.decode (reader [] e))) ended

module _ (on_error : Bool) (unmarshal : List ℕ → Error ⊎ Message) (pick : Bool) where
  -- The run after one more message.
  abbrev after : Message → List ℕ → Run → Run
  after m rest r = record r {
    conn = record r.conn { reader = reader rest r.conn.reader.fin };
    recv = r.recv ++ (m ∷ []);
  }

  read_step-message :
      (b : List ℕ) (m : Message) (rest : List ℕ) (r : Run)
      → Readable unmarshal (b, m)
      → r.close_ch ≡ false
      → r.conn.reader.pending ≡ ServerMessage.frame (record { body = b }) ++ rest
      → read_step on_error none unmarshal pick false r ≡ (running, after m rest r)
  unfolding read_step decoded meanwhile delivered
  read_step-message b m rest r (fits, is_parsed) open_yet arriving =
      if_false _ _ r.close_ch open_yet
      ∙ ap (decoded on_error none unmarshal pick false r) (
          reading-Reads (ServerMessage.frame (record { body = b })) (record { body = b })
            ServerMessage.decode rest r.conn
            (ServerMessage.ServerMessage-Transmits (record { body = b }) fits).read arriving)
      ∙ ap
          (λ u.
            delivered on_error none pick u
              (record r { conn = record r.conn { reader = reader rest r.conn.reader.fin } }))
          is_parsed
      ∙ if_false _ _ (r.close_ch && pick) (ap (λ b'. b' && pick) open_yet)

  -- The run after the end of the stream.
  abbrev ended_run : Run → Run
  ended_run r = record r {
    close_ch = true;
    conn = record r.conn { reader = reader [] eof; closed = true };
  }

  read_step-eof :
      (r : Run)
      → r.close_ch ≡ false
      → r.conn.reader.pending ≡ []
      → r.conn.reader.fin ≡ eof
      → read_step on_error none unmarshal pick false r ≡ (stopped, ended_run r)
  unfolding read_step decoded meanwhile read_failed returned close_all close_reported is_eof
  read_step-eof r open_yet empty ended =
      if_false _ _ r.close_ch open_yet
      ∙ ap (decoded on_error none unmarshal pick false r) (decode_eof r.conn empty ended)
      ∙ ap (λ q. (stopped, q)) (if_false _ _ r.close_ch open_yet)

  -- When the stream holds the frames of messages and then ends, one round for each message and one
  -- more bring readLoop to its end: every message is delivered, in order, none is reported as an
  -- error, and the connection is closed.
  pub read_rounds-delivers :
      (ms : List (List ℕ × Message)) (r : Run)
      → All (Readable unmarshal) ms
      → r.close_ch ≡ false
      → r.conn.reader.pending ≡ frames ms
      → r.conn.reader.fin ≡ eof
      → let (loop, q) = read_rounds on_error unmarshal pick (suc (length ms)) r in
        (loop ≡ stopped)
        × (q.recv ≡ r.recv ++ messages ms)
        × (q.errors ≡ r.errors)
        × (q.close_ch ≡ true)
        × (q.conn.closed ≡ true)
  unfolding read_rounds next
  read_rounds-delivers [] r all open_yet arriving ended =
      rw (read_step-eof r open_yet arriving ended) (refl, sym (append-nil r.recv), refl, refl, refl)
  read_rounds-delivers ((b, m) ∷ ms) r (one, all) open_yet arriving ended =
      rw (read_step-message b m (frames ms) r one open_yet arriving) (
        let (stops, got, silent, shut, closed) =
          read_rounds-delivers ms (after m (frames ms) r) all open_yet refl ended in
        (stops, got ∙ append_assoc r.recv (m ∷ []) (messages ms), silent, shut, closed))
