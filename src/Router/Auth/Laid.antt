-- ===== src/Router/Auth/Laid.antt =====
-- The buffer of authenticate once its first four regions are filled, and what later copies leave.
use sprut.Router.Auth.{auth_buf_size}
use sprut.Bytes.Slices.{
  slice-copy_at_after, slice-copy_at, slice-copy_at_before, length-copy_at, slice, copy_at,
}
use sprut.Base.{◌∙◌, arith, ◌≡◌, ◌+◌, ◌≤◌, length, ℕ, List}

-- The key, the challenge, the timestamp and the server's id are in their places.
pub record Laid (key challenge stamp server_id buf : List ℕ) : Type 0 where
  pub len : length buf ≡ auth_buf_size
  pub key_at : slice 0 32 buf ≡ key
  pub challenge_at : slice 32 64 buf ≡ challenge
  pub stamp_at : slice 64 72 buf ≡ stamp
  pub server_id_at : slice 72 104 buf ≡ server_id

module _ {key challenge stamp server_id : List ℕ} where
  pub copy-Laid :
      (off : ℕ) (src buf : List ℕ)
      → 104 ≤ off
      → off + length src ≤ auth_buf_size
      → Laid key challenge stamp server_id buf
      → Laid key challenge stamp server_id (copy_at off src buf)
  copy-Laid off src buf h fits l = record {
    len = length-copy_at off src buf (omega (arith, l.len)) ∙ l.len;
    key_at = slice-copy_at_before 0 32 off src buf (omega arith) (omega arith) room ∙ l.key_at;
    challenge_at =
        slice-copy_at_before 32 64 off src buf (omega arith) (omega arith) room ∙ l.challenge_at;
    stamp_at = slice-copy_at_before 64 72 off src buf (omega arith) (omega arith) room ∙ l.stamp_at;
    server_id_at =
        slice-copy_at_before 72 104 off src buf (omega arith) (omega arith) room ∙ l.server_id_at;
  }
    where
      room : off + length src ≤ length buf
      room = omega (arith, l.len)

-- Filling the regions one after the other, in any buffer that has the server's id in its place.
module _ (key challenge stamp server_id buf : List ℕ) (size : length buf ≡ auth_buf_size)
    (id_at : slice 72 104 buf ≡ server_id) (key_len : length key ≡ 32)
    (challenge_len : length challenge ≡ 32) (stamp_len : length stamp ≡ 8) where
  abbrev with_key : List ℕ
  with_key = copy_at 0 key buf

  abbrev with_challenge : List ℕ
  with_challenge = copy_at 32 challenge with_key

  abbrev pub with_stamp : List ℕ
  with_stamp = copy_at 64 stamp with_challenge

  length-with_key : length with_key ≡ auth_buf_size
  length-with_key = length-copy_at 0 key buf (omega arith) ∙ size

  length-with_challenge : length with_challenge ≡ auth_buf_size
  length-with_challenge =
      length-copy_at 32 challenge with_key (omega (arith, length-with_key)) ∙ length-with_key

  pub with_stamp-Laid : Laid key challenge stamp server_id with_stamp
  with_stamp-Laid = record {
    len =
        length-copy_at 64 stamp with_challenge (omega (arith, length-with_challenge))
        ∙ length-with_challenge;
    key_at =
        slice-copy_at_before 0 32 64 stamp with_challenge (omega arith) (omega arith)
          (omega (arith, length-with_challenge))
        ∙ slice-copy_at_before 0 32 32 challenge with_key (omega arith) (omega arith)
            (omega (arith, length-with_key))
        ∙ slice-copy_at 0 32 key buf (omega arith) (omega arith);
    challenge_at =
        slice-copy_at_before 32 64 64 stamp with_challenge (omega arith) (omega arith)
          (omega (arith, length-with_challenge))
        ∙ slice-copy_at 32 64 challenge with_key (omega arith) (omega (arith, length-with_key));
    stamp_at =
        slice-copy_at 64 72 stamp with_challenge (omega arith)
          (omega (arith, length-with_challenge));
    server_id_at =
        slice-copy_at_after 72 104 64 stamp with_challenge (omega arith)
          (omega (arith, length-with_challenge))
        ∙ slice-copy_at_after 72 104 32 challenge with_key (omega arith)
            (omega (arith, length-with_key))
        ∙ slice-copy_at_after 72 104 0 key buf (omega arith) (omega arith)
        ∙ id_at;
  }
