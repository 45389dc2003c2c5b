-- ===== src/Client/Loops/Kept.antt =====
-- What the handling of errors and closeAll of pkg/client/client.go leave as it is.
use mathlib.Core.Path.{sym, subst}
use sprut.Base.{
  if_false, ◌||◌, if_true, ◌∙◌, arith, refl, ◌≡◌, Bool-cases, Bool, true, false, none, some, inl,
  inr, if◌then◌else◌, Option,
}
use sprut.Io.{is_net_closed, is_eof, wrap, Error, stopped}
use sprut.Client.Loops.{
  close_reported, returned, close_all, read_failed, handle_error, Run, meanwhile,
}

module _ (on_error : Bool) (close_error : Option Error) where
  -- A run that has received the same, from the same stream.
  pub record IsKept (r q : Run) : Type 0 where
    pub recv : q.recv ≡ r.recv
    pub reader : q.conn.reader ≡ r.conn.reader

  pub handle_error-IsKept : (e : Error) (r : Run) → IsKept r (handle_error on_error close_error e r)
  unfolding handle_error
  handle_error-IsKept e r = elim (Bool-cases on_error) [
    | inl on ↦ rw on (record { recv = refl; reader = refl })
    | inr off ↦ rw off (record { recv = refl; reader = refl })
  ]

  pub close_all-IsKept : (r : Run) → IsKept r (close_all on_error close_error r)
  unfolding close_all close_reported
  close_all-IsKept r = elim (Bool-cases r.close_ch) [
    | inl shut ↦
        subst (IsKept r) (sym (if_true _ _ r.close_ch shut)) (record { recv = refl; reader = refl })
    | inr open_yet ↦
        subst (IsKept r) (sym (if_false _ _ r.close_ch open_yet)) (by_error close_error)
  ]
    where
      by_error :
          (o : Option Error)
          → IsKept r (
              close_reported on_error close_error o
                (record r { close_ch = true; conn = record r.conn { closed = true } }))
      by_error none = record { recv = refl; reader = refl }
      by_error (some e) =
          let k =
            handle_error-IsKept (wrap "close connection" e)
              (record r { close_ch = true; conn = record r.conn { closed = true } }) in
          record { recv = k.recv; reader = k.reader }

  pub read_failed-recv :
      (e : Error) (r : Run) → (read_failed on_error close_error e r).1.recv ≡ r.recv
  unfolding read_failed returned
  read_failed-recv e r = elim (Bool-cases (is_eof e || is_net_closed e)) [
    | inl normal ↦ rw normal (close_all-IsKept r).recv
    | inr fault ↦ rw fault (by_closed r.close_ch)
  ]
    where
      by_closed :
          (b : Bool)
          → (if b
              then returned on_error close_error r
              else returned on_error close_error
                  (handle_error on_error close_error (wrap "decode server message" e) r)).1.recv
            ≡ r.recv
      by_closed true = (close_all-IsKept r).recv
      by_closed false =
          (close_all-IsKept
            (handle_error on_error close_error (wrap "decode server message" e) r)).recv
          ∙ (handle_error-IsKept (wrap "decode server message" e) r).recv

  pub meanwhile-IsKept :
      (closing : Bool) (r : Run) → IsKept r (meanwhile on_error close_error closing r)
  unfolding meanwhile
  meanwhile-IsKept true r = close_all-IsKept r
  meanwhile-IsKept false r = record { recv = refl; reader = refl }

  pub read_failed-stopped :
      (e : Error) (r : Run) → (read_failed on_error close_error e r).0 ≡ stopped
  unfolding read_failed returned
  read_failed-stopped e r = ground arith
