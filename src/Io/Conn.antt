-- ===== src/Io/Conn.antt =====
-- What the code uses of a net.Conn: its two directions, its deadline, whether it is closed, and the
-- TLS state if it is a *tls.Conn.
use sprut.Base.{
  arith, append-nil, if_true, [], ◌<◌, if_false, refl, true, false, ◌∙◌, ap, ◌++◌, ◌≤◌, length, ◌≡◌,
  List, if◌then◌else◌, Bool, Option, ℕ,
}
use sprut.Io.{Error, push, Outcome, ok, net_closed, err, Proc, Writer, Reader}
use sprut.Protocol.ChannelBinding.{ConnectionState}
use sprut.Io.Writes.{Writes}
use sprut.Io.Reads.{reader, Reads}

pub record Conn : Type 0 where
  pub reader : Reader
  pub writer : Writer
  pub deadline : Option ℕ
  pub closed : Bool
  pub tls : Option ConnectionState

-- SetDeadline fails on a closed connection and has no other effect.
unfoldable pub set_deadline : Option ℕ → Proc Conn (Unit {0})
set_deadline t c = if c.closed then err net_closed c else ok tt (record c { deadline = t })

-- On an open connection it takes effect.
pub set_deadline-open :
    (t : Option ℕ) (c : Conn)
    → c.closed ≡ false
    → set_deadline t c ≡ ok tt (record c { deadline = t })
unfolding set_deadline
set_deadline-open t c h = by_closed c.closed h
  where
    by_closed :
        (b : Bool)
        → b ≡ false
        → ◌≡◌ {A = Outcome Conn (Unit {0})}
            (if b then err net_closed c else ok tt (record c { deadline = t }))
            (ok tt (record c { deadline = t }))
    by_closed true e = cc
    by_closed false e = refl

-- The state that a call leaves when its error is only logged.
abbrev pub logged : Outcome Conn (Unit {0}) → Conn
logged (ok a c) = c
logged (err e c) = c

-- A reader's or a writer's procedure on a connection.
abbrev pub reading_back {ℓ} : {A : Type ℓ} → Conn → Outcome Reader A → Outcome Conn A
reading_back c (ok a r) = ok a (record c { reader = r })
reading_back c (err e r) = err e (record c { reader = r })

unfoldable pub reading {ℓ} : {A : Type ℓ} → Proc Reader A → Proc Conn A
reading p c = reading_back c (p c.reader)

abbrev pub writing_back : Conn → Outcome Writer (Unit {0}) → Outcome Conn (Unit {0})
writing_back c (ok a w) = ok a (record c { writer = w })
writing_back c (err e w) = err e (record c { writer = w })

-- A closed connection takes nothing more, so that every Write fails.
unfoldable pub writer_of : Conn → Writer
writer_of c = if c.closed then record c.writer { room = 0 } else c.writer

unfoldable pub writing : Proc Writer (Unit {0}) → Proc Conn (Unit {0})
unfolding writer_of
writing p c = writing_back c (p (writer_of c))

pub reading-Reads :
    {A : Type 0} (bs : List ℕ) (a : A) (p : Proc Reader A) (rest : List ℕ) (c : Conn)
    → Reads bs a p
    → c.reader.pending ≡ bs ++ rest
    → reading p c ≡ ok a (record c { reader = reader rest c.reader.fin })
unfolding reading
reading-Reads bs a p rest c v e =
    ap (λ l. reading_back c (p (reader l c.reader.fin))) e ∙ rw (v.whole rest c.reader.fin)

pub writer_of-output : (c : Conn) → (writer_of c).output ≡ c.writer.output
unfolding writer_of
writer_of-output c = ground arith

writer_of-open : (c : Conn) → c.closed ≡ false → writer_of c ≡ c.writer
unfolding writer_of
writer_of-open c open_yet = if_false _ _ c.closed open_yet

pub writing-open :
    (p : Proc Writer (Unit {0})) (c : Conn)
    → c.closed ≡ false
    → writing p c ≡ writing_back c (p c.writer)
unfolding writing
writing-open p c open_yet = ap (λ w. writing_back c (p w)) (writer_of-open c open_yet)

pub writing-Writes :
    (bs : List ℕ) (p : Proc Writer (Unit {0})) (c : Conn)
    → Writes bs p
    → c.closed ≡ false
    → length bs ≤ c.writer.room
    → writing p c ≡ ok tt (record c { writer = push bs c.writer })
writing-Writes bs p c v open_yet h = writing-open p c open_yet ∙ rw (v.whole c.writer h)

-- On a closed connection nothing is written.
pub writing-shut :
    (bs : List ℕ) (p : Proc Writer (Unit {0})) (c : Conn)
    → Writes bs p
    → 0 < length bs
    → c.closed ≡ true
    → (e : Error) × (w : Writer) × (writing p c ≡ err e (record c { writer = w }))
      × (w.output ≡ c.writer.output)
unfolding writing writer_of
writing-shut bs p c v some_bytes shut =
    let (e, q) = v.part (record c.writer { room = 0 }) some_bytes in
    (
      e,
      push [] (record c.writer { room = 0 }),
      ap (λ w. writing_back c (p w)) (if_true _ _ c.closed shut) ∙ ap (writing_back c) q,
      append-nil c.writer.output,
    )
