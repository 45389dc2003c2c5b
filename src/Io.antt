-- ===== src/Io.antt =====
-- What the code uses of Go's io, errors and fmt packages: errors as values, io.ReadFull over a
-- stream of bytes, io.Writer.Write, and a computation that may stop with an error.
pub mod Writes
pub mod Reads
pub mod Ensures
pub mod Conn
pub mod X509
use sprut.Base.{
  ℤ, ℕ, ◌-◌, ◌≤◌, ◌≡◌, Bool, true, false, List, [], ◌∷◌, ◌++◌, String, leb, if◌then◌else◌, length,
  take, drop,
}

-- An `error` value. `wrap c e` is fmt.Errorf("c: %w", e); `message c ns` is fmt.Errorf of a text
-- with numbers in it, `message_int` with an int, and `wrap_text c t e` wraps with a text that the program computes. A `panic` is no error of Go's: it stands for a run-time panic, which nothing
-- in the program recovers.
pub data Error : Type 0 where
  eof unexpected_eof not_exist net_closed deadline_exceeded short_write : Error
  auth_failed invalid_signature challenge_expired : Error
  message : String → List ℕ → Error
  message_int : String → ℤ → Error
  wrap : String → Error → Error
  wrap_text : String → List ℕ → Error → Error
  panic : String → Error

-- errors.Is(err, io.EOF) and errors.Is(err, net.ErrClosed).
unfoldable pub is_eof : Error → Bool
is_eof eof = true
is_eof (wrap c e) = is_eof e
is_eof (wrap_text c t e) = is_eof e
is_eof _ = false

unfoldable pub is_net_closed : Error → Bool
is_net_closed net_closed = true
is_net_closed (wrap c e) = is_net_closed e
is_net_closed (wrap_text c t e) = is_net_closed e
is_net_closed _ = false

-- errors.Is(err, os.ErrNotExist).
unfoldable pub is_not_exist : Error → Bool
is_not_exist not_exist = true
is_not_exist (wrap c e) = is_not_exist e
is_not_exist (wrap_text c t e) = is_not_exist e
is_not_exist _ = false

-- Whether a computation stopped by a panic, whatever stands round it.
unfoldable pub is_panic : Error → Bool
is_panic (panic c) = true
is_panic (wrap c e) = is_panic e
is_panic (wrap_text c t e) = is_panic e
is_panic _ = false

-- What a call leaves: a value or an error, and in both cases the state it has come to.
pub data Outcome {ℓ κ} (S : Type ℓ) (A : Type κ) : Type (ℓ ⊔ κ) where
  ok : A → S → Outcome S A
  err : Error → S → Outcome S A

abbrev pub Proc {ℓ κ} : Type ℓ → Type κ → Type (ℓ ⊔ κ)
Proc S A = S → Outcome S A

abbrev pub and_then {ℓ κ υ} :
    {S : Type ℓ} {A : Type κ} {B : Type υ} → Outcome S A → (A → Proc S B) → Outcome S B
and_then (ok a s) f = f a s
and_then (err e s) f = err e s

infixl 5 ◌>>=◌ ◌>>◌
abbrev pub ◌>>=◌ {ℓ κ υ} :
    {S : Type ℓ} {A : Type κ} {B : Type υ} → Proc S A → (A → Proc S B) → Proc S B
◌>>=◌ m f s = and_then (m s) f

abbrev pub ◌>>◌ {ℓ κ} : {S : Type ℓ} {B : Type κ} → Proc S (Unit {0}) → Proc S B → Proc S B
◌>>◌ m k s = and_then (m s) (λ _. k)

abbrev pub return {ℓ κ} : {S : Type ℓ} {A : Type κ} → A → Proc S A
return a s = ok a s

abbrev pub fail {ℓ κ} : {S : Type ℓ} {A : Type κ} → Error → Proc S A
fail e s = err e s

-- `if test { return e }`
abbrev pub fail_if {ℓ} : {S : Type ℓ} → Bool → Error → Proc S (Unit {0})
fail_if true e s = err e s
fail_if false e s = ok tt s

abbrev pub wrap_outcome {ℓ κ} : {S : Type ℓ} {A : Type κ} → String → Outcome S A → Outcome S A
wrap_outcome c (ok a s) = ok a s
wrap_outcome c (err e s) = err (wrap c e) s

-- `if err != nil { return fmt.Errorf("c: %w", err) }`
abbrev pub wrapping {ℓ κ} : {S : Type ℓ} {A : Type κ} → String → Proc S A → Proc S A
wrapping c m s = wrap_outcome c (m s)

-- A reader: the bytes that are still to come, and what a Read behind the last of them reports.
pub record Reader : Type 0 where
  pub pending : List ℕ
  pub fin : Error

-- io.ReadFull: an EOF in the middle is io.ErrUnexpectedEOF; any other error is passed on.
abbrev pub read_error : List ℕ → Error → Error
read_error [] e = e
read_error (b ∷ bs) eof = unexpected_eof
read_error (b ∷ bs) e = e

unfoldable pub read_full : ℕ → Proc Reader (List ℕ)
read_full n r =
    if leb n (length r.pending)
    then ok (take n r.pending) (record r { pending = drop n r.pending })
    else err (read_error r.pending r.fin) (record r { pending = [] })

-- A writer: the bytes written so far, and how many more it takes before a Write fails.
pub record Writer : Type 0 where
  pub output : List ℕ
  pub room : ℕ

abbrev pub push : List ℕ → Writer → Writer
push bs w = record { output = w.output ++ bs; room = w.room - length bs }

-- A Write that fails has written a part of its bytes.
unfoldable pub write : List ℕ → Proc Writer (Unit {0})
write bs w =
    if leb (length bs) w.room then ok tt (push bs w) else err short_write (push (take w.room bs) w)

-- After one round of a goroutine's loop: it goes on, or it has returned.
pub data Loop : Type 0 where
  running stopped : Loop
