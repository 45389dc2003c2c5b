-- ===== src/Router/Auth/Challenge.antt =====
-- The challenge message, as send_challenge puts it together in the work area.
use sprut.Router.Auth.{off_work, send_challenge}
use sprut.Router.Auth.Laid.{Laid, copy-Laid}
use sprut.Router.Auth.Steps.{state, write_region-state}
use sprut.Base.{refl, append_assoc, ◌∙◌, ap, ◌++◌, ◌≤◌, [], ◌∷◌, arith, ◌+◌, ◌≡◌, length, ℕ, List}
use sprut.Io.Conn.{Conn}
use sprut.Bytes.Slices.{slice-copy_at, slice-extend, slice, copy_at}
use sprut.Protocol.{type_server_challenge}
use sprut.Io.{push, ok, Writer}
use sprut.Io.Ensures.{wrap_outcome-ok}

module _ {key challenge stamp server_id : List ℕ} (buf : List ℕ)
    (laid : Laid key challenge stamp server_id buf) (challenge_len : length challenge ≡ 32)
    (stamp_len : length stamp ≡ 8) (id_len : length server_id ≡ 32) where
  abbrev with_type : List ℕ
  with_type = copy_at off_work (type_server_challenge ∷ []) buf

  with_type-Laid : Laid key challenge stamp server_id with_type
  with_type-Laid =
      copy-Laid off_work (type_server_challenge ∷ []) buf (omega arith) (omega arith) laid

  abbrev with_challenge : List ℕ
  with_challenge = copy_at (off_work + 1) (slice 32 64 with_type) with_type

  with_challenge-Laid : Laid key challenge stamp server_id with_challenge
  with_challenge-Laid =
      copy-Laid (off_work + 1) (slice 32 64 with_type) with_type (omega arith)
        (omega (arith, ap length with_type-Laid.challenge_at, challenge_len)) with_type-Laid

  abbrev with_stamp : List ℕ
  with_stamp = copy_at (off_work + 1 + 32) (slice 64 72 with_challenge) with_challenge

  with_stamp-Laid : Laid key challenge stamp server_id with_stamp
  with_stamp-Laid =
      copy-Laid (off_work + 1 + 32) (slice 64 72 with_challenge) with_challenge (omega arith)
        (omega (arith, ap length with_challenge-Laid.stamp_at, stamp_len)) with_challenge-Laid

  abbrev pub with_message : List ℕ
  with_message = copy_at (off_work + 1 + 32 + 8) (slice 72 104 with_stamp) with_stamp

  pub with_message-Laid : Laid key challenge stamp server_id with_message
  with_message-Laid =
      copy-Laid (off_work + 1 + 32 + 8) (slice 72 104 with_stamp) with_stamp (omega arith)
        (omega (arith, ap length with_stamp-Laid.server_id_at, id_len)) with_stamp-Laid

  abbrev pub challenge_message : List ℕ
  challenge_message = type_server_challenge ∷ (challenge ++ (stamp ++ server_id))

  message_at : slice off_work (off_work + 73) with_message ≡ challenge_message
  message_at =
      slice-extend off_work 357 389 (slice 72 104 with_stamp) with_stamp (omega arith)
        (omega (arith, ap length with_stamp-Laid.server_id_at, id_len))
        (omega (arith, with_stamp-Laid.len))
      ∙ ap (λ l. l ++ slice 72 104 with_stamp)
          (slice-extend off_work 349 357 (slice 64 72 with_challenge) with_challenge (omega arith)
            (omega (arith, ap length with_challenge-Laid.stamp_at, stamp_len))
            (omega (arith, with_challenge-Laid.len)))
      ∙ ap (λ l. (l ++ slice 64 72 with_challenge) ++ slice 72 104 with_stamp)
          (slice-extend off_work 317 349 (slice 32 64 with_type) with_type (omega arith)
            (omega (arith, ap length with_type-Laid.challenge_at, challenge_len))
            (omega (arith, with_type-Laid.len)))
      ∙ ap
          (λ l.
            ((l ++ slice 32 64 with_type) ++ slice 64 72 with_challenge) ++ slice 72 104 with_stamp)
          (slice-copy_at off_work 317 (type_server_challenge ∷ []) buf refl
            (omega (arith, laid.len)))
      ∙ (λ i.
          (((type_server_challenge ∷ []) ++ with_type-Laid.challenge_at i)
            ++ with_challenge-Laid.stamp_at i)
          ++ with_stamp-Laid.server_id_at i)
      ∙ ap (◌∷◌ type_server_challenge) (append_assoc challenge stamp server_id)

  pub send_challenge-state :
      (c : Conn) (pending : List ℕ) (w : Writer)
      → length challenge_message ≤ w.room
      → send_challenge (state c pending w buf)
        ≡ ok tt (state c pending (push challenge_message w) with_message)
  unfolding send_challenge
  send_challenge-state c pending w room = wrap_outcome-ok "send challenge" (
      write_region-state c off_work (off_work + 73) challenge_message pending w with_message
        message_at room)
