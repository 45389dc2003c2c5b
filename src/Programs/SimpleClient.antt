-- ===== src/Programs/SimpleClient.antt =====
-- examples/simple-client/main.go, behind its start. fmt.Println's usage lines are values of `Notice`.
pub mod Trim
pub mod Typed
use sprut.Identity
use sprut.Client.Connect
use sprut.Programs.{Flags, Start, start}
use mathlib.Core.List.{reverse}
use sprut.Base.{length, take, List}
use sprut.Programs.{add_one, print_int64}
use sprut.Base.{
  leb, ◌||◌, codes, ltb, ◌++◌, ◌&&◌, not, ◌⊎◌, ◌==◌, Option, Bool, ℕ, [], ◌∷◌, none, some, true,
  false, inl, inr, zero, suc, if◌then◌else◌,
}
use sprut.Client.Loops.{OutgoingMessage}
use sprut.Router.Message.{Message}
use sprut.Io.{panic, ◌>>◌, ok, return, ◌>>=◌, err, Proc, Error}

-- strings.TrimSpace: the encodings of Go's white space, of one to three bytes.
unfoldable pub is_space1 : ℕ → Bool
is_space1 a = a == 32 || (leb 9 a && leb a 13)

unfoldable pub is_space2 : ℕ → ℕ → Bool
is_space2 a b = a == 194 && (b == 133 || b == 160)

unfoldable pub is_space3 : ℕ → ℕ → ℕ → Bool
is_space3 a b c =
    (a == 225 && b == 154 && c == 128)
    || (a == 226 && b == 128 && ((leb 128 c && leb c 138) || c == 168 || c == 169 || c == 175))
    || (a == 226 && b == 129 && c == 159)
    || (a == 227 && b == 128 && c == 128)

-- How many bytes of white space a text begins with: none, or those of one character.
unfoldable pub first_space : List ℕ → ℕ
first_space [] = 0
first_space (a ∷ []) = if is_space1 a then 1 else 0
first_space (a ∷ b ∷ []) = if is_space1 a then 1 else if is_space2 a b then 2 else 0
first_space (a ∷ b ∷ c ∷ s) =
    if is_space1 a then 1 else if is_space2 a b then 2 else if is_space3 a b c then 3 else 0

-- The same for the end of a text, which is given with its last byte first.
unfoldable pub last_space : List ℕ → ℕ
last_space [] = 0
last_space (a ∷ []) = if is_space1 a then 1 else 0
last_space (a ∷ b ∷ []) = if is_space1 a then 1 else if is_space2 b a then 2 else 0
last_space (a ∷ b ∷ c ∷ s) =
    if is_space1 a then 1 else if is_space2 b a then 2 else if is_space3 c b a then 3 else 0

-- The text behind `skip` bytes and the white space that follows.
unfoldable pub strip : (List ℕ → ℕ) → ℕ → List ℕ → List ℕ
strip width skip [] = []
strip width (suc skip) (c ∷ s) = strip width skip s
strip width zero (c ∷ s) = elim (width (c ∷ s)) [ zero ↦ c ∷ s | suc k ↦ strip width k s ]

unfoldable pub trim_space : List ℕ → List ℕ
trim_space s = reverse (strip last_space 0 (reverse (strip first_space 0 s)))

-- `strings.SplitN(line, " ", 2)`: the part before the first space, and the rest where there is one.
unfoldable pub split_space : List ℕ → List ℕ × Option (List ℕ)
split_space [] = ([], none)
split_space (c ∷ s) =
    let (part, rest) = split_space s in if c == 32 then ([], some s) else (c ∷ part, rest)

pub data Notice : Type 0 where
  usage invalid_recipient : Notice

-- The counter, what was put into send, whether main has closed it, and the notices printed.
pub record Shell : Type 0 where
  pub count : ℕ
  pub sent : List OutgoingMessage
  pub send_closed : Bool
  pub printed : List Notice

show : Notice → Proc Shell (Unit {0})
show notice s = ok tt (record s { printed = s.printed ++ (notice ∷ []) })

-- `msgCounter.Add(1)`, whose value stands in the message.
next_id : Proc Shell ℕ
next_id s = ok (add_one s.count) (record s { count = add_one s.count })

put : OutgoingMessage → Proc Shell (Unit {0})
put msg s =
    if s.send_closed
    then err (panic "send on closed channel") s
    else ok tt (record s { sent = s.sent ++ (msg ∷ []) })

to_recipient : List ℕ → List ℕ → Proc Shell (Unit {0})
to_recipient to msg = do
  n ← next_id
  put (record { to = to; msg_id = codes "msg-" ++ print_int64 n; payload = msg })

in_parts : List ℕ × Option (List ℕ) → Proc Shell (Unit {0})
in_parts (to, none) = show usage
in_parts (to, some msg) =
    if not (length to == 64) then show invalid_recipient else to_recipient to msg

trimmed : List ℕ → Proc Shell (Unit {0})
trimmed [] = return tt
trimmed (c ∷ line) = in_parts (split_space (c ∷ line))

-- One line of the scanner.
unfoldable pub read_command : List ℕ → Proc Shell (Unit {0})
unfolding trimmed in_parts to_recipient show next_id put
read_command text = trimmed (trim_space text)

-- readCommands, on the lines that the scanner gives.
unfoldable pub read_commands : List (List ℕ) → Proc Shell (Unit {0})
read_commands [] = return tt
read_commands (text ∷ texts) = do read_command text; read_commands texts

-- What main prints of one message of recv: `msg.From[:16]` panics where the name is shorter.
unfoldable pub received_line : Message → Error ⊎ List ℕ
received_line msg =
    if ltb (length msg.from) 16
    then inl (panic "slice bounds out of range")
    else inr (
        codes "["
        ++ msg.id
        ++ codes "] From "
        ++ take 16 msg.from
        ++ codes "...: "
        ++ msg.payload
        ++ codes "\n")

-- `close(send)` at the end of main.
unfoldable pub shut_down : Shell → Shell
shut_down s = record s { send_closed = true }

-- main until it says that it runs: the code is the other program's, line by line.
module _ {Full Pool Handler S : Type 0} (print_error : Handler) (disk : Identity.Calls S)
    (calls : Connect.Calls Full Pool) (now : ℕ) where
  unfoldable pub begin : Flags → S → Start Full Pool Handler × S
  begin = start print_error disk calls now
