-- ===== src/Client/Loops/Together/Counts.antt =====
-- Counting the turns that the two loops of pkg/client/client.go still take.
use sprut.Base.{
  inl, inr, ◌⊎◌, ◌-◌, length-append, ◌++◌, refl, inr, inl, ◌+◌, ◌-◌, ◌≤◌, ◌⊎◌, ◌≡◌, arith, length,
  ℕ, List, [], ◌∷◌, suc,
}
use sprut.Client.Loops.Together.{
  Turn, WriteStage, ReadStage, read_done, write_done, polling, decoding, delivering, writing,
  read_turn, write_turn, finish, end_sending, enqueue, arrive,
}
use sprut.Client.Loops.{OutgoingMessage}
use sprut.Base.{[], ◌∷◌, inl, inr, zero, suc}
use sprut.Client.Loops.Together.{
  read_done, write_done, polling, decoding, delivering, writing, read_turn, write_turn, finish,
  end_sending, enqueue, arrive,
}
use sprut.Client.Loops.Together.Stopping.{total, enqueue_count, write_count, read_left, write_left}

pub more :
    (s : WriteStage) (send : List OutgoingMessage) (msg : OutgoingMessage)
    → write_left s (send ++ (msg ∷ [])) ≤ write_left s send + 1
more writing send msg = omega (arith, length-append send (msg ∷ []))
more write_done send msg = omega arith

pub over_more :
    (s : WriteStage) (send : List OutgoingMessage) (msg : OutgoingMessage)
    → write_left s send ≡ 0
    → write_left s (send ++ (msg ∷ [])) ≡ 0
over_more writing send msg z = absurd (omega (arith, z))
over_more write_done send msg z = refl

at_most-write_count : (t : Turn) → write_count t ≤ 1
at_most-write_count (write_turn pick now) = omega arith
at_most-write_count (read_turn pick) = omega arith
at_most-write_count finish = omega arith
at_most-write_count end_sending = omega arith
at_most-write_count (enqueue msg) = omega arith
at_most-write_count (arrive bytes) = omega arith

-- Enough rounds of writeLoop are to come.
abbrev pub Enough : List Turn → ℕ → Type 0
Enough ts left = (left ≡ 0) ⊎ (left + total enqueue_count ts ≤ total write_count ts)

pub Enough-next :
    (t : Turn) (ts : List Turn) (left next : ℕ)
    → Enough (t ∷ ts) left
    → next ≤ (left + enqueue_count t) - write_count t
    → (left ≡ 0 → next ≡ 0)
    → Enough ts next
Enough-next t ts left next (inl z) d k = inl (k z)
Enough-next t ts zero next (inr w) d k = inl (k refl)
Enough-next t ts (suc left) next (inr w) d k = inr (omega (arith, w, d, at_most-write_count t))

pub at_most-read_left : (s : ReadStage) → read_left s ≤ 3
at_most-read_left polling = omega arith
at_most-read_left decoding = omega arith
at_most-read_left (delivering msg) = omega arith
at_most-read_left read_done = omega arith

pub at_most-write_left :
    (s : WriteStage) (send : List OutgoingMessage) → write_left s send ≤ suc (length send)
at_most-write_left writing send = omega arith
at_most-write_left write_done send = omega arith

pub no_reads : (s : ReadStage) → read_left s ≤ 0 → s ≡ read_done
no_reads read_done h = refl
no_reads polling h = absurd (omega (arith, h))
no_reads decoding h = absurd (omega (arith, h))
no_reads (delivering msg) h = absurd (omega (arith, h))

pub no_writes :
    (s : WriteStage) (send : List OutgoingMessage) → write_left s send ≤ 0 → s ≡ write_done
no_writes writing send h = absurd (omega (arith, h))
no_writes write_done send h = refl
