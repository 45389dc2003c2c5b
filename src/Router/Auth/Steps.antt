-- ===== src/Router/Auth/Steps.antt =====
-- Steps of authenticate that succeed, as equations of the states before and behind them.
use sprut.Router.Auth.{
  off_work, auth_buf_size, read_back, written_back, AuthState, read_region, write_region,
  expect_type,
}
use sprut.Io.Ensures.{and_then-ok, wrap_outcome-ok}
use sprut.Bytes.Slices.{byte_at-copy_at, slice, copy_at}
use sprut.Io.Conn.{Conn}
use sprut.Base.{
  refl, ==_refl, arith, ◌∙◌, [], take, ap, ◌∷◌, ◌≤◌, ◌++◌, length, ◌≡◌, ℕ, String, List,
}
use sprut.Io.{write, push, ok, Writer}
use sprut.Io.Reads.{read_full-Reads, reader}
use sprut.Io.Writes.{write-Writes}

-- A connection like `c` with given bytes to come and a given writer.
abbrev pub state : Conn → List ℕ → Writer → List ℕ → AuthState
state c pending w buf = record {
  conn = record c { reader = reader pending c.reader.fin; writer = w };
  buf = buf;
}

module _ (c : Conn) where
  pub read_region-state :
      (off n : ℕ) (bs rest : List ℕ) (w : Writer) (buf : List ℕ)
      → length bs ≡ n
      → read_region off n (state c (bs ++ rest) w buf) ≡ ok tt (state c rest w (copy_at off bs buf))
  unfolding read_region read_back
  read_region-state off n bs rest w buf h =
      ap (read_back (state c (bs ++ rest) w buf) off (take n (bs ++ rest)))
        ((read_full-Reads n bs h).whole rest c.reader.fin)

  pub write_region-state :
      (lo hi : ℕ) (out pending : List ℕ) (w : Writer) (buf : List ℕ)
      → slice lo hi buf ≡ out
      → length out ≤ w.room
      → write_region lo hi (state c pending w buf) ≡ ok tt (state c pending (push out w) buf)
  unfolding write_region written_back
  write_region-state lo hi out pending w buf e h =
      ap (λ bs. written_back (state c pending w buf) (write bs w)) e
      ∙ ap (written_back (state c pending w buf)) ((write-Writes out).whole w h)

  pub expect_type-state :
      (context : String) (t : ℕ) (rest : List ℕ) (w : Writer) (buf : List ℕ)
      → length buf ≡ auth_buf_size
      → expect_type context t (state c (t ∷ rest) w buf)
        ≡ ok tt (state c rest w (copy_at off_work (t ∷ []) buf))
  unfolding expect_type
  expect_type-state context t rest w buf h =
      and_then-ok _
        (wrap_outcome-ok context (read_region-state off_work 1 (t ∷ []) rest w buf refl))
      ∙ rw (byte_at-copy_at off_work t buf (omega arith), ==_refl t) refl
