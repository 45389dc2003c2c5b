-- ===== src/Programs/EchoBot/Answers.antt =====
-- The replies of examples/echo-bot/main.go.
use mathlib.Core.Path.{subst}
use sprut.Programs.EchoBot.{sent_line, received_line, Bot, print, next_id, put, answer, answer_all}
use sprut.Programs.{print_int64}
use sprut.Protocol.ClientMessage.{IsSendable}
use sprut.Base.{
  refl, map, ◌∙◌, sym, arith, append_assoc, ap, append-nil, le→ltb, ◌^◌, ◌<◌, ◌+◌, ◌≡◌, length,
  ◌++◌, ◌≤◌, codes, All, List, ℕ, [], ◌∷◌, false, suc,
}
use sprut.Router.Message.{Message}
use sprut.Client.Loops.{OutgoingMessage}
use sprut.Io.{Outcome, and_then, ok}
use sprut.Programs.Numbers.{ids-Distinct, Distinct, print-short, ids, add_one-small}
use sprut.Client.Loops.Writing.{client_message}

-- The reply with the number n.
abbrev reply : ℕ → Message → OutgoingMessage
reply n msg = record {
  to = msg.from;
  msg_id = codes "echo-" ++ print_int64 n;
  payload = codes "Echo: " ++ msg.payload;
}

abbrev pub replies : ℕ → List Message → List OutgoingMessage
replies n [] = []
replies n (msg ∷ msgs) = reply (suc n) msg ∷ replies (suc n) msgs

abbrev lines : Message → List (List ℕ)
lines msg = received_line msg ∷ sent_line msg (codes "Echo: " ++ msg.payload) ∷ []

abbrev pub all_lines : List Message → List (List ℕ)
all_lines [] = []
all_lines (msg ∷ msgs) = lines msg ++ all_lines msgs

answer-reply :
    (msg : Message) (b : Bot)
    → 16 ≤ length msg.from
    → b.send_closed ≡ false
    → suc b.count < 2 ^ 63
    → answer msg b
      ≡ ok tt (record b {
        count = suc b.count;
        sent = b.sent ++ (reply (suc b.count) msg ∷ []);
        printed = b.printed ++ lines msg;
      })
unfolding answer print next_id put
answer-reply msg b h o c =
    rw (le→ltb (length msg.from) 16 h, o, add_one-small b.count c)
      (ap
        (λ l. ok tt (record b {
          count = suc b.count;
          sent = b.sent ++ (reply (suc b.count) msg ∷ []);
          send_closed = false;
          printed = l;
        }))
        (append_assoc b.printed _ _))

abbrev answered : Bot → Outcome Bot (Unit {0})
answered b = ok tt b

same_bot :
    (b : Bot) {n m : ℕ} {s t : List OutgoingMessage} {p q : List (List ℕ)}
    → n ≡ m
    → s ≡ t
    → p ≡ q
    → answered (record b { count = n; sent = s; printed = p })
      ≡ answered (record b { count = m; sent = t; printed = q })
same_bot b e f g = cc

answer_all-replies :
    (msgs : List Message) (b : Bot)
    → All (λ msg. 16 ≤ length msg.from) msgs
    → b.send_closed ≡ false
    → b.count + length msgs < 2 ^ 63
    → answer_all msgs b
      ≡ ok tt (record b {
        count = b.count + length msgs;
        sent = b.sent ++ replies b.count msgs;
        printed = b.printed ++ all_lines msgs;
      })
unfolding answer_all
answer_all-replies [] b h o c =
    same_bot b (omega arith) (sym (append-nil b.sent)) (sym (append-nil b.printed))
answer_all-replies (msg ∷ msgs) b (h, hs) o c =
    ap (λ r. and_then r (λ _. answer_all msgs)) (answer-reply msg b h o (omega (arith, c)))
    ∙ answer_all-replies msgs _ hs o (omega (arith, c))
    ∙ same_bot b (omega arith) (append_assoc b.sent _ _) (append_assoc b.printed _ _)

replies-ids :
    (n : ℕ) (msgs : List Message)
    → map (λ r. r.msg_id) (replies n msgs) ≡ ids (codes "echo-") n (length msgs)
unfolding ids
replies-ids n [] = refl
replies-ids n (msg ∷ msgs) =
    ap (λ l. (codes "echo-" ++ print_int64 (suc n)) ∷ l) (replies-ids (suc n) msgs)

reply-IsSendable :
    (n : ℕ) (msg : Message)
    → n < 2 ^ 63
    → length msg.from ≡ 64
    → length msg.payload ≤ 65439
    → IsSendable (client_message (reply n msg))
reply-IsSendable n msg k e h = record {
  to_len = e;
  msg_id_fits = omega (arith, print-short n k);
  total_fits = omega (arith, print-short n k, h);
}

replies-IsSendable :
    (msgs : List Message) (n : ℕ)
    → n + length msgs < 2 ^ 63
    → All (λ msg. (length msg.from ≡ 64) × (length msg.payload ≤ 65439)) msgs
    → All (λ r. IsSendable (client_message r)) (replies n msgs)
replies-IsSendable [] n k h = tt
replies-IsSendable (msg ∷ msgs) n k ((e, h), hs) = (
  reply-IsSendable (suc n) msg (omega (arith, k)) e h,
  replies-IsSendable msgs (suc n) (omega (arith, k)) hs,
)

long_names :
    (msgs : List Message)
    → All (λ msg. (length msg.from ≡ 64) × (length msg.payload ≤ 65439)) msgs
    → All (λ msg. 16 ≤ length msg.from) msgs
long_names [] h = tt
long_names (msg ∷ msgs) ((e, h), hs) = (omega (arith, e), long_names msgs hs)

-- Where each message of recv names its sender by 64 bytes and carries at most 65439 bytes, send is
-- open and the counter does not overflow: the bot puts exactly one reply for each into send, in
-- their order and addressed to their senders, prints two lines for each, and never panics; the
-- replies have different numbers, and the client can encode every one of them.
pub answer_all-replies_all :
    (msgs : List Message) (b : Bot)
    → All (λ msg. (length msg.from ≡ 64) × (length msg.payload ≤ 65439)) msgs
    → b.send_closed ≡ false
    → b.count + length msgs < 2 ^ 63
    → (answer_all msgs b
        ≡ ok tt (record b {
          count = b.count + length msgs;
          sent = b.sent ++ replies b.count msgs;
          printed = b.printed ++ all_lines msgs;
        }))
      × Distinct (map (λ r. r.msg_id) (replies b.count msgs))
      × All (λ r. IsSendable (client_message r)) (replies b.count msgs)
answer_all-replies_all msgs b h o c = (
  answer_all-replies msgs b (long_names msgs h) o c,
  subst Distinct (sym (replies-ids b.count msgs))
      (ids-Distinct (codes "echo-") (length msgs) b.count c),
  replies-IsSendable msgs b.count c h,
)
