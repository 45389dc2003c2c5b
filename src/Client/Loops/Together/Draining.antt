-- ===== src/Client/Loops/Together/Draining.antt =====
-- What readLoop of pkg/client/client.go leaves to writeLoop: send and its end.
use sprut.Client.Loops.Together.{
  read_returned, deliver, decode, ReadStage, failed, poll, read_at, decoded, Life, parsed,
  read_done, polling, decoding, delivering,
}
use sprut.Base.{
  ◌&&◌, refl, ℤ, ◌⊎◌, ◌∙◌, ◌≡◌, arith, ℕ, List, Option, Bool, true, false, inl, inr, if◌then◌else◌,
}
use sprut.Io.{net_closed, err, ok, Outcome, wrap, Error}
use sprut.Client.Loops.{close_reported, read_failed, handle_error, close_all, returned, Run}
use sprut.Router.Message.{Message}
use sprut.Io.Conn.{Conn}
use sprut.Protocol.ServerMessage.{ServerMessage}

module _ (on_error : Bool) (close_error : Option Error) where
  -- What is in send, and whether it is closed, is as it was.
  abbrev Keeps : Run → Run → Type 0
  Keeps r q = (q.send ≡ r.send) × (q.send_closed ≡ r.send_closed)

  pub handle_error-Keeps : (e : Error) (r : Run) → Keeps r (handle_error on_error close_error e r)
  unfolding handle_error
  handle_error-Keeps e r = ground arith

  close_all-Keeps : (r : Run) → Keeps r (close_all on_error close_error r)
  unfolding close_all close_reported handle_error
  close_all-Keeps r = ground arith

  failed-Keeps :
      (e : Error) (r : Run) (b c : Bool)
      → Keeps r
          (if b
            then returned on_error close_error r
            else if c
            then returned on_error close_error r
            else returned on_error close_error
                (handle_error on_error close_error (wrap "decode server message" e) r)).1
  unfolding returned
  failed-Keeps e r true c = close_all-Keeps r
  failed-Keeps e r false true = close_all-Keeps r
  failed-Keeps e r false false =
      let told = handle_error-Keeps (wrap "decode server message" e) r in
      let shut =
        close_all-Keeps (handle_error on_error close_error (wrap "decode server message" e) r) in
      (shut.0 ∙ told.0, shut.1 ∙ told.1)

  read_failed-Keeps : (e : Error) (r : Run) → Keeps r (read_failed on_error close_error e r).1
  unfolding read_failed
  read_failed-Keeps e r = failed-Keeps e r _ _

  module _ (unmarshal : List ℕ → Error ⊎ Message) (write_timeout : ℤ) where
    -- A turn of readLoop.
    pub record IsAside (l m : Life) : Type 0 where
      pub kept : Keeps l.run m.run
      pub same_write : m.write_stage ≡ l.write_stage

    aside :
        (l : Life) (r : Run) (s : ReadStage)
        → Keeps l.run r
        → IsAside l (record l { run = r; read_stage = s })
    aside l r s k = record { kept = k; same_write = refl }

    parsed-IsAside :
        (l : Life) (r : Run) (o : Error ⊎ Message)
        → Keeps l.run r
        → IsAside l (parsed on_error close_error unmarshal write_timeout l r o)
    unfolding parsed
    parsed-IsAside l r (inl e) k =
        let told = handle_error-Keeps (wrap "unmarshal message" e) r in
        aside l _ polling (told.0 ∙ k.0, told.1 ∙ k.1)
    parsed-IsAside l r (inr msg) k = aside l r (delivering msg) k

    decoded-IsAside :
        (l : Life) (o : Outcome Conn ServerMessage)
        → IsAside l (decoded on_error close_error unmarshal write_timeout l o)
    unfolding decoded failed
    decoded-IsAside l (ok m c) = parsed-IsAside l _ (unmarshal m.body) (refl, refl)
    decoded-IsAside l (err e c) =
        aside l _ read_done (read_failed-Keeps e (record l.run { conn = c }))

    either-IsAside :
        (l m n : Life) (b : Bool) → IsAside l m → IsAside l n → IsAside l (if b then m else n)
    either-IsAside l m n true h k = h
    either-IsAside l m n false h k = k

    pub read_at-IsAside :
        (pick : Bool) (l : Life) (s : ReadStage)
        → IsAside l (read_at on_error close_error unmarshal write_timeout pick l s)
    unfolding read_at poll decode deliver read_returned failed
    read_at-IsAside pick l polling =
        either-IsAside l _ _ l.run.close_ch (aside l _ read_done (close_all-Keeps l.run))
          (aside l l.run decoding (refl, refl))
    read_at-IsAside pick l decoding =
        either-IsAside l _ _ (l.run.conn.closed && pick)
          (aside l _ read_done (read_failed-Keeps net_closed l.run)) (decoded-IsAside l _)
    read_at-IsAside pick l (delivering msg) =
        either-IsAside l _ _ (l.run.close_ch && pick) (aside l _ read_done (close_all-Keeps l.run))
          (aside l _ polling (refl, refl))
    read_at-IsAside pick l read_done = record { kept = (refl, refl); same_write = refl }
