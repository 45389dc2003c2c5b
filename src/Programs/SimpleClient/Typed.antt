-- ===== src/Programs/SimpleClient/Typed.antt =====
-- The messages that readCommands of examples/simple-client/main.go sends.
use mathlib.Core.List.{append_assoc, append-nil, map, reverse, reverse-append, reverse-cons}
use mathlib.Core.Path.{ap, sym, subst}
use sprut.Programs.SimpleClient.{
  split_space, Shell, read_command, read_commands, next_id, put, to_recipient, in_parts, trimmed,
}
use sprut.Base.{
  ◌∙◌, ◌+◌, refl, codes, ◌^◌, arith, ◌<◌, All, ℕ, ◌≡◌, [], ◌∷◌, ◌++◌, List, false, suc, length,
}
use sprut.Client.Loops.{OutgoingMessage}
use sprut.Programs.SimpleClient.Trim.{
  Begins-append, split_space-first, trim_space-blank, IsBlank, Begins, IsVisible,
}
use sprut.Programs.{print_int64}
use sprut.Io.{and_then, Outcome, ok}
use sprut.Programs.Numbers.{ids-Distinct, Distinct, ids, add_one-small}

-- A command as it is typed: white space may stand around it.
pub record Command : Type 0 where
  pub before : List ℕ
  pub to : List ℕ
  pub text : List ℕ
  pub after : List ℕ

pub record IsTyped (c : Command) : Type 0 where
  pub blank_before : All IsBlank c.before
  pub blank_after : All IsBlank c.after
  pub to_len : length c.to ≡ 64
  pub to_visible : All IsVisible c.to
  pub text_ends : Begins IsVisible (reverse c.text)

abbrev core : Command → List ℕ
core c = c.to ++ (32 ∷ c.text)

abbrev pub line : Command → List ℕ
line c = c.before ++ ((c.to ++ (32 ∷ c.text)) ++ c.after)

abbrev request : ℕ → Command → OutgoingMessage
request n c = record { to = c.to; msg_id = codes "msg-" ++ print_int64 n; payload = c.text }

abbrev pub requests : ℕ → List Command → List OutgoingMessage
requests n [] = []
requests n (c ∷ cs) = request (suc n) c ∷ requests (suc n) cs

first-Begins : (s t : List ℕ) → length s ≡ 64 → All IsVisible s → Begins IsVisible (s ++ t)
first-Begins [] t e h = absurd (omega (arith, e))
first-Begins (c ∷ s) t e (h, hs) = h

last-Begins :
    (to text : List ℕ)
    → Begins IsVisible (reverse text)
    → Begins IsVisible (reverse (to ++ (32 ∷ text)))
last-Begins to text h =
    rw (reverse-append to (32 ∷ text), reverse-cons 32 text)
      (Begins-append IsVisible (reverse text ++ (32 ∷ [])) (reverse to)
        (Begins-append IsVisible (reverse text) (32 ∷ []) h))

trimmed-nonempty : (s : List ℕ) → Begins IsVisible s → trimmed s ≡ in_parts (split_space s)
unfolding trimmed
trimmed-nonempty [] h = absurd h
trimmed-nonempty (c ∷ s) h = refl

to_recipient-request :
    (to text : List ℕ) (s : Shell)
    → s.send_closed ≡ false
    → suc s.count < 2 ^ 63
    → to_recipient to text s
      ≡ ok tt (record s {
        count = suc s.count;
        sent =
            s.sent
            ++ (record {
              to = to;
              msg_id = codes "msg-" ++ print_int64 (suc s.count);
              payload = text;
            }
                ∷ []);
      })
unfolding to_recipient next_id put
to_recipient-request to text s o n = rw (add_one-small s.count n, o) refl

read_command-request :
    (c : Command) (s : Shell)
    → IsTyped c
    → s.send_closed ≡ false
    → suc s.count < 2 ^ 63
    → read_command (line c) s
      ≡ ok tt (record s { count = suc s.count; sent = s.sent ++ (request (suc s.count) c ∷ []) })
unfolding read_command in_parts
read_command-request c s t o n =
    rw
      (
        trim_space-blank c.before (core c) c.after t.blank_before t.blank_after
            (first-Begins c.to (32 ∷ c.text) t.to_len t.to_visible)
            (last-Begins c.to c.text t.text_ends),
        trimmed-nonempty (core c) (first-Begins c.to (32 ∷ c.text) t.to_len t.to_visible),
        split_space-first c.to c.text t.to_visible,
        t.to_len,
      )
      (to_recipient-request c.to c.text s o n)

abbrev answered : Shell → Outcome Shell (Unit {0})
answered s = ok tt s

same_shell :
    (s : Shell) {n m : ℕ} {k l : List OutgoingMessage}
    → n ≡ m
    → k ≡ l
    → answered (record s { count = n; sent = k }) ≡ answered (record s { count = m; sent = l })
same_shell s e f = cc

read_commands-requests :
    (cs : List Command) (s : Shell)
    → All IsTyped cs
    → s.send_closed ≡ false
    → s.count + length cs < 2 ^ 63
    → read_commands (map line cs) s
      ≡ ok tt (record s { count = s.count + length cs; sent = s.sent ++ requests s.count cs })
unfolding read_commands
read_commands-requests [] s t o n = same_shell s (omega arith) (sym (append-nil s.sent))
read_commands-requests (c ∷ cs) s (t, ts) o n =
    ap (λ r. and_then r (λ _. read_commands (map line cs)))
      (read_command-request c s t o (omega (arith, n)))
    ∙ read_commands-requests cs _ ts o (omega (arith, n))
    ∙ same_shell s (omega arith) (append_assoc s.sent _ _)

requests-ids :
    (n : ℕ) (cs : List Command)
    → map (λ r. r.msg_id) (requests n cs) ≡ ids (codes "msg-") n (length cs)
unfolding ids
requests-ids n [] = refl
requests-ids n (c ∷ cs) =
    ap (λ l. (codes "msg-" ++ print_int64 (suc n)) ∷ l) (requests-ids (suc n) cs)

-- Where send is open and the counter does not overflow: of lines that each have 64 visible ASCII
-- bytes, a space and a text whose last byte is visible ASCII, with any ASCII white space around
-- them, every one is put into send, in their order, as a message for these 64 bytes with this text;
-- nothing is printed or panics, and the messages have different numbers.
pub read_commands-typed :
    (cs : List Command) (s : Shell)
    → All IsTyped cs
    → s.send_closed ≡ false
    → s.count + length cs < 2 ^ 63
    → (read_commands (map line cs) s
        ≡ ok tt (record s { count = s.count + length cs; sent = s.sent ++ requests s.count cs }))
      × Distinct (map (λ r. r.msg_id) (requests s.count cs))
read_commands-typed cs s t o n = (
  read_commands-requests cs s t o n,
  subst Distinct (sym (requests-ids s.count cs))
      (ids-Distinct (codes "msg-") (length cs) s.count n),
)
