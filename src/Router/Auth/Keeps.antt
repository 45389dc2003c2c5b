-- ===== src/Router/Auth/Keeps.antt =====
-- What the steps of authenticate leave alone: the front of the buffer, its length, and the connection
-- but for its two directions.
use sprut.Router.Auth.{auth_buf_size, off_work, AuthState, read_region, write_region, expect_type}
use sprut.Base.{
  ◌==◌, ap, refl, length-take, inr, inl, arith, length, leb, sym, ◌≡◌, Bool-cases, ◌+◌, take, ◌∙◌,
  ◌≤◌, List, String, ℕ,
}
use sprut.Io.{wrap_outcome, read_full, write}
use sprut.Io.Ensures.{Ensures-wrap, Ensures-and_then, Ensures}
use sprut.Bytes.Slices.{
  take-copy_at_before, take_of_take, slice-take, byte_at, length-copy_at, copy_at, slice,
}

pub record Keeps (k : ℕ) (s s' : AuthState) : Type 0 where
  pub front : take k s'.buf ≡ take k s.buf
  pub len : length s'.buf ≡ length s.buf
  pub tls : s'.conn.tls ≡ s.conn.tls
  pub closed : s'.conn.closed ≡ s.conn.closed

pub Keeps-trans : {k : ℕ} {s t u : AuthState} → Keeps k s t → Keeps k t u → Keeps k s u
Keeps-trans a b = record {
  front = b.front ∙ a.front;
  len = b.len ∙ a.len;
  tls = b.tls ∙ a.tls;
  closed = b.closed ∙ a.closed;
}

pub Keeps-narrow : {j k : ℕ} {s t : AuthState} → j ≤ k → Keeps k s t → Keeps j s t
Keeps-narrow {j} {k} {s} {t} h a = record {
  front = sym (take_of_take j k t.buf h) ∙ ap (take j) a.front ∙ take_of_take j k s.buf h;
  len = a.len;
  tls = a.tls;
  closed = a.closed;
}

-- A part of the kept front is kept.
pub Keeps-slice :
    {k : ℕ} {s t : AuthState} (lo hi : ℕ)
    → hi ≤ k
    → Keeps k s t
    → slice lo hi t.buf ≡ slice lo hi s.buf
Keeps-slice {k} {s} {t} lo hi h a =
    sym (slice-take lo hi k t.buf h) ∙ ap (slice lo hi) a.front ∙ slice-take lo hi k s.buf h

pub copy-Keeps :
    (k off : ℕ) (src : List ℕ) (s : AuthState)
    → k ≤ off
    → off + length src ≤ length s.buf
    → Keeps k s (record s { buf = copy_at off src s.buf })
copy-Keeps k off src s h l = record {
  front = take-copy_at_before k off src s.buf h l;
  len = length-copy_at off src s.buf (omega arith);
  tls = refl;
  closed = refl;
}

pub read_region-Keeps :
    (k off n : ℕ) (s : AuthState)
    → k ≤ off
    → off + n ≤ length s.buf
    → Ensures (λ _. Keeps k s) (λ _. Keeps k s) (read_region off n s)
unfolding read_region read_full
read_region-Keeps k off n s h l =
    let short : off + length (take n s.conn.reader.pending) ≤ length s.buf =
      omega (arith, length-take n s.conn.reader.pending) in
    let kept = copy-Keeps k off (take n s.conn.reader.pending) s h short in
    elim (Bool-cases (leb n (length s.conn.reader.pending))) [
      | inl whole ↦
          rw whole (record { front = kept.front; len = kept.len; tls = refl; closed = refl })
      | inr part ↦
          rw part (record { front = kept.front; len = kept.len; tls = refl; closed = refl })
    ]

pub write_region-Keeps :
    (k lo hi : ℕ) (s : AuthState) → Ensures (λ _. Keeps k s) (λ _. Keeps k s) (write_region lo hi s)
unfolding write_region write
write_region-Keeps k lo hi s =
    elim (Bool-cases (leb (length (slice lo hi s.buf)) s.conn.writer.room)) [
      | inl whole ↦ rw whole (record { front = refl; len = refl; tls = refl; closed = refl })
      | inr part ↦ rw part (record { front = refl; len = refl; tls = refl; closed = refl })
    ]

pub expect_type-Keeps :
    (k t : ℕ) (context : String) (s : AuthState)
    → k ≤ off_work
    → length s.buf ≡ auth_buf_size
    → Ensures (λ _. Keeps k s) (λ _. Keeps k s) (expect_type context t s)
unfolding expect_type
expect_type-Keeps k t context s h l =
    Ensures-and_then (λ _. Keeps k s) (λ _. Keeps k s) (λ _. Keeps k s)
      (wrap_outcome context (read_region off_work 1 s)) _
      (Ensures-wrap _ (λ _. Keeps k s) _ context (read_region off_work 1 s) (λ e s' u. u)
        (read_region-Keeps k off_work 1 s h (omega arith)))
      (λ a s' v. elim (Bool-cases (byte_at off_work s'.buf == t)) [
        | inl good ↦ rw good v
        | inr bad ↦ rw bad v
      ])
