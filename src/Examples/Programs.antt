-- ===== src/Examples/Programs.antt =====
-- The programs of examples at concrete inputs.
use sprut.Base.{replicate, List, map}
use sprut.Examples.Local.{disk_calls, disk_calls-IsSound}
use sprut.Examples.Connecting.{client_calls}
use sprut.Programs.{decimal, Flags, print_int64, start}
use sprut.Programs.EchoBot.{Bot, answer_all}
use sprut.Programs.EchoBot.Answers.{replies, all_lines, answer_all-replies_all}
use sprut.Programs.SimpleClient.{
  is_space3, is_space2, last_space, first_space, is_space1, strip, Shell, read_commands, trim_space,
}
use sprut.Programs.SimpleClient.Typed.{Command, IsTyped, line, requests, read_commands-typed}
use sprut.Programs.Starts.{Starting, start-Starting}
use sprut.Base.{
  ℕ, arith, ◌++◌, ◌+◌, refl, All, ◌^◌, codes, ◌≡◌, [], ◌∷◌, none, true, false, zero, suc, List,
}
use sprut.Router.Message.{empty_message, Message}
use sprut.Io.{ok}
use sprut.Programs.Numbers.{Distinct}
use sprut.Protocol.ClientMessage.{IsSendable}
use sprut.Client.Loops.Writing.{client_message}
use sprut.Programs.SimpleClient.Trim.{IsVisible}

abbrev flags : Flags
flags = record {
  addr = codes "localhost:8443";
  keys = codes "bot.key";
  insecure = true;
  ca_cert = codes "ca.pem";
}

start-Starting_example :
    Starting
      (tt {0})
      disk_calls
      disk_calls-IsSound
      client_calls
      1700000000
      flags
      none
      (start (tt {0}) disk_calls client_calls 1700000000 flags none)
start-Starting_example =
    start-Starting (tt {0}) disk_calls disk_calls-IsSound client_calls 1700000000 flags none

-- The least int64, behind the greatest.
print_overflown : print_int64 (2 ^ 63) ≡ codes "-9223372036854775808"
unfolding print_int64 decimal
print_overflown = refl

abbrev two_received : List Message
two_received =
    record empty_message { from = replicate 64 b'a'; payload = codes "hello" }
    ∷ record empty_message { from = replicate 64 b'b'; payload = [] }
    ∷ []

abbrev idle_bot : Bot
idle_bot = record { count = 9; sent = []; send_closed = false; printed = [] }

answer_all-replies_all_example :
    (answer_all two_received idle_bot
      ≡ ok tt (record idle_bot {
        count = 9 + 2;
        sent = [] ++ replies 9 two_received;
        printed = [] ++ all_lines two_received;
      }))
    × Distinct (map (λ r. r.msg_id) (replies 9 two_received))
    × All (λ r. IsSendable (client_message r)) (replies 9 two_received)
answer_all-replies_all_example =
    answer_all-replies_all two_received idle_bot ((refl, omega arith), ((refl, omega arith), tt))
      refl (omega arith)

-- A no-break space in UTF-8 is white space, its last byte alone is not.
trim_unicode : trim_space (194 ∷ 160 ∷ 32 ∷ b'a' ∷ 160 ∷ 194 ∷ 160 ∷ []) ≡ b'a' ∷ 160 ∷ []
unfolding trim_space strip first_space last_space is_space1 is_space2 is_space3
trim_unicode = refl

abbrev idle_shell : Shell
idle_shell = record { count = 0; sent = []; send_closed = false; printed = [] }

abbrev two_commands : List Command
two_commands =
    record {
      before = 32 ∷ [];
      to = replicate 64 b'a';
      text = codes "hello  there";
      after = 13 ∷ [];
    }
    ∷ record { before = []; to = replicate 64 b'b'; text = codes "hi"; after = [] }
    ∷ []

visible : (n c : ℕ) → IsVisible c → All IsVisible (replicate n c)
visible zero c h = tt
visible (suc n) c h = (h, visible n c h)

two_commands-IsTyped : All IsTyped two_commands
unfolding is_space1
two_commands-IsTyped = (
  record {
    blank_before = (refl, tt);
    blank_after = (refl, tt);
    to_len = refl;
    to_visible = visible 64 b'a' (omega arith, omega arith);
    text_ends = (omega arith, omega arith);
  },
  (
    record {
      blank_before = tt;
      blank_after = tt;
      to_len = refl;
      to_visible = visible 64 b'b' (omega arith, omega arith);
      text_ends = (omega arith, omega arith);
    },
    tt,
  ),
)

read_commands-typed_example :
    (read_commands (map line two_commands) idle_shell
      ≡ ok tt (record idle_shell { count = 0 + 2; sent = [] ++ requests 0 two_commands }))
    × Distinct (map (λ r. r.msg_id) (requests 0 two_commands))
read_commands-typed_example =
    read_commands-typed two_commands idle_shell two_commands-IsTyped refl (omega arith)
