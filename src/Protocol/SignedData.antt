-- ===== src/Protocol/SignedData.antt =====
-- BuildSignedDataTo and BuildSignedData of pkg/protocol/auth.go: what a client signs.
use sprut.Base.{
  length-drop, le→ltb, [], refl, append_assoc, sym, drop-append_seam, take-append_seam, take, ap,
  ◌∙◌, ◌^◌, length-append, some, ◌<◌, arith, none, drop, ltb, ◌≤◌, replicate, ◌+◌, if◌then◌else◌,
  ◌≡◌, ◌++◌, codes, length, List, Option, ℕ,
}
use sprut.Bytes.Slices.{drop-drop, copy_at-fits, copied, copy_at}
use sprut.Bytes.{length-put_be, put_be}
use sprut.Protocol.{
  channel_binding_size, public_key_size, server_id_size, challenge_size, timestamp_size,
}
pub mod Injective

abbrev pub protocol_version : List ℕ
protocol_version = codes "goro-auth-v1"

-- `len(ProtocolVersion) + ChallengeSize + TimestampSize + ServerIDSize + PublicKeySize +
-- ChannelBindingSize`
abbrev pub signed_data_size : ℕ
signed_data_size =
    length protocol_version
    + challenge_size
    + timestamp_size
    + server_id_size
    + public_key_size
    + channel_binding_size

-- The buffer and the offset behind what is written.
pub record Cursor : Type 0 where
  pub buf : List ℕ
  pub offset : ℕ

-- `offset += copy(buf[offset:], src)`
unfoldable pub put_bytes : List ℕ → Cursor → Cursor
put_bytes src c = record {
  buf = copy_at c.offset src c.buf;
  offset = c.offset + copied c.offset src c.buf;
}

-- `binary.BigEndian.PutUint64(buf[offset:], timestamp); offset += TimestampSize`. It panics without
-- 8 bytes of room, which the bounds check of `build_signed_data_to` excludes.
unfoldable pub put_uint64 : ℕ → Cursor → Cursor
put_uint64 v c = record {
  buf = copy_at c.offset (put_be timestamp_size v) c.buf;
  offset = c.offset + timestamp_size;
}

-- The values that go in, in the order of the parameters.
pub record Fields : Type 0 where
  pub challenge : List ℕ
  pub timestamp : ℕ
  pub server_id : List ℕ
  pub client_pub_key : List ℕ
  pub channel_binding : List ℕ

-- The array sizes and the range of the uint64.
pub record IsSized (f : Fields) : Type 0 where
  pub challenge_len : length f.challenge ≡ challenge_size
  pub timestamp_fits : f.timestamp < 2 ^ 64
  pub server_id_len : length f.server_id ≡ server_id_size
  pub client_pub_key_len : length f.client_pub_key ≡ public_key_size
  pub channel_binding_len : length f.channel_binding ≡ channel_binding_size

unfoldable pub build : Fields → Cursor → Cursor
build f c0 =
    let c1 = put_bytes protocol_version c0 in
    let c2 = put_bytes f.challenge c1 in
    let c3 = put_uint64 f.timestamp c2 in
    let c4 = put_bytes f.server_id c3 in
    let c5 = put_bytes f.client_pub_key c4 in put_bytes f.channel_binding c5

-- `none` is the panic of `_ = buf[SignedDataSize-1]`; the result is the buffer, written, and the
-- slice of it that is returned.
unfoldable pub build_signed_data_to : List ℕ → Fields → Option (List ℕ × List ℕ)
build_signed_data_to buf f =
    if ltb (length buf) signed_data_size
    then none
    else (let c = build f (record { buf = buf; offset = 0 }) in some (c.buf, take c.offset c.buf))

-- BuildSignedData: into a buffer of its own.
unfoldable pub build_signed_data : Fields → Option (List ℕ × List ℕ)
build_signed_data f = build_signed_data_to (replicate signed_data_size 0) f

-- What is to be signed: the fields one after the other.
abbrev pub signed : Fields → List ℕ
signed f =
    protocol_version
    ++ (f.challenge
        ++ (put_be timestamp_size f.timestamp
            ++ (f.server_id ++ (f.client_pub_key ++ f.channel_binding))))

-- A cursor that has written `pre` and has `rest` before it.
record Filled (pre rest : List ℕ) (c : Cursor) : Type 0 where
  buf_eq : c.buf ≡ pre ++ rest
  offset_eq : c.offset ≡ length pre

copy-Filled :
    (pre rest src : List ℕ) (c : Cursor)
    → Filled pre rest c
    → length src ≤ length rest
    → copy_at c.offset src c.buf ≡ (pre ++ src) ++ drop (length src) rest
copy-Filled pre rest src c v h =
    rw (v.offset_eq, v.buf_eq)
      (copy_at-fits (length pre) src (pre ++ rest) (omega (arith, length-append pre rest))
        ∙ rw (take-append_seam (length pre) pre rest refl) (
            rw (← drop-drop (length src) (length pre) (pre ++ rest)) (
              rw (drop-append_seam (length pre) pre rest refl)
                (sym (append_assoc pre src (drop (length src) rest))))))

put_bytes-Filled :
    (pre rest src : List ℕ) (c : Cursor)
    → length src ≤ length rest
    → Filled pre rest c
    → Filled (pre ++ src) (drop (length src) rest) (put_bytes src c)
unfolding put_bytes copied
put_bytes-Filled pre rest src c h v = record {
  buf_eq = copy-Filled pre rest src c v h;
  offset_eq =
      omega (arith, length-append pre src, length-append pre rest, ap length v.buf_eq, v.offset_eq);
}

put_uint64-Filled :
    (pre rest : List ℕ) (t : ℕ) (c : Cursor)
    → timestamp_size ≤ length rest
    → Filled pre rest c
    → Filled (pre ++ put_be timestamp_size t) (drop timestamp_size rest) (put_uint64 t c)
unfolding put_uint64
put_uint64-Filled pre rest t c h v = record {
  buf_eq = rw (length-put_be timestamp_size t) at (
      copy-Filled pre rest (put_be timestamp_size t) c v
        (omega (arith, length-put_be timestamp_size t)));
  offset_eq = omega (
    arith,
    length-append pre (put_be timestamp_size t),
    length-put_be timestamp_size t,
    v.offset_eq,
  );
}

-- One more field of `n` bytes, the first `k` bytes of the buffer being written.
advance_bytes :
    (k n : ℕ) (buf pre src : List ℕ) (c : Cursor)
    → length src ≡ n
    → k + n ≤ length buf
    → Filled pre (drop k buf) c
    → Filled (pre ++ src) (drop (k + n) buf) (put_bytes src c)
advance_bytes k n buf pre src c e h v =
    rw (drop-drop (length src) k buf, e) at
      (put_bytes-Filled pre (drop k buf) src c (omega (arith, length-drop k buf)) v)

advance_uint64 :
    (k : ℕ) (buf pre : List ℕ) (t : ℕ) (c : Cursor)
    → k + 8 ≤ length buf
    → Filled pre (drop k buf) c
    → Filled (pre ++ put_be timestamp_size t) (drop (k + 8) buf) (put_uint64 t c)
advance_uint64 k buf pre t c h v =
    rw (drop-drop 8 k buf) at
      (put_uint64-Filled pre (drop k buf) t c (omega (arith, length-drop k buf)) v)

-- The bytes that the fields take, and what is left of the buffer.
build-Filled :
    (f : Fields) (buf : List ℕ)
    → IsSized f
    → signed_data_size ≤ length buf
    → Filled
        (((((protocol_version ++ f.challenge) ++ put_be timestamp_size f.timestamp) ++ f.server_id)
            ++ f.client_pub_key)
          ++ f.channel_binding)
        (drop signed_data_size buf)
        (build f (record { buf = buf; offset = 0 }))
unfolding build
build-Filled f buf s h =
    advance_bytes 116 32 buf _ f.channel_binding _ s.channel_binding_len (omega arith) (
      advance_bytes 84 32 buf _ f.client_pub_key _ s.client_pub_key_len (omega arith) (
        advance_bytes 52 32 buf _ f.server_id _ s.server_id_len (omega arith) (
          advance_uint64 44 buf _ f.timestamp _ (omega arith) (
            advance_bytes 12 32 buf _ f.challenge _ s.challenge_len (omega arith) (
              advance_bytes 0 12 buf [] protocol_version _ refl (omega arith)
                (record { buf_eq = refl; offset_eq = refl }))))))

-- Into any buffer that is long enough BuildSignedDataTo writes the fields one after the other, leaves
-- the rest of the buffer as it was, and returns exactly what it has written.
pub build_signed_data_to_lem :
    (buf : List ℕ) (f : Fields)
    → IsSized f
    → signed_data_size ≤ length buf
    → build_signed_data_to buf f ≡ some (signed f ++ drop signed_data_size buf, signed f)
unfolding build_signed_data_to
build_signed_data_to_lem buf f s h =
    let v = build-Filled f buf s h in
    let e : (((((protocol_version ++ f.challenge) ++ put_be timestamp_size f.timestamp)
              ++ f.server_id)
            ++ f.client_pub_key)
          ++ f.channel_binding)
        ≡ signed f =
      simp append_assoc in
    rw (le→ltb (length buf) signed_data_size h) (
      rw (v.buf_eq, v.offset_eq, take-append_seam _ _ (drop signed_data_size buf) refl)
        (ap (λ x. some (x ++ drop signed_data_size buf, x)) e))

pub length-signed : (f : Fields) → IsSized f → length (signed f) ≡ signed_data_size
length-signed f s = omega (
  arith,
  length-append protocol_version (
      f.challenge
      ++ (put_be timestamp_size f.timestamp
          ++ (f.server_id ++ (f.client_pub_key ++ f.channel_binding)))),
  length-append f.challenge (
      put_be timestamp_size f.timestamp
      ++ (f.server_id ++ (f.client_pub_key ++ f.channel_binding))),
  length-append (put_be timestamp_size f.timestamp)
      (f.server_id ++ (f.client_pub_key ++ f.channel_binding)),
  length-append f.server_id (f.client_pub_key ++ f.channel_binding),
  length-append f.client_pub_key f.channel_binding,
  length-put_be timestamp_size f.timestamp,
  s.challenge_len,
  s.server_id_len,
  s.client_pub_key_len,
  s.channel_binding_len,
)
