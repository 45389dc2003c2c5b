-- ===== src/Router/Auth/Conclude.antt =====
-- Steps 9 to 13 of authenticate where they succeed.
use sprut.Router.Auth.{
  auth_buf_size, Env, off_work, off_signed_data, auth_fields, signed_region, built, check_signature,
  settle, conclude, announce, channel_binding, binding_of, bound,
}
use sprut.Router.Auth.Laid.{Laid, copy-Laid}
use sprut.Router.Auth.Steps.{state, write_region-state}
use sprut.Router.Auth.Freshness.{check_timestamp_iff}
use sprut.Protocol.SignedData.{
  build_signed_data_to, Fields, IsSized, signed, length-signed, build_signed_data_to_lem,
  signed_data_size,
}
use sprut.Base.{
  refl, [], ◌-◌, length-take, length-drop, ◌∷◌, inr, length-append, ap, arith, ◌∙◌, some, true,
  drop, ◌+◌, ◌++◌, ◌≡◌, length, ◌≤◌, Bool, ℕ, List,
}
use sprut.Io.Conn.{Conn}
use sprut.Bytes.{put_be}
use sprut.Protocol.ChannelBinding.{get_channel_binding, ConnectionState}
use sprut.Io.{push, ok, Writer}
use sprut.Bytes.Slices.{slice-copy_at, slice-extend, slice-copy_at_before, copy_at, slice}
use sprut.Protocol.{auth_status_ok, type_auth_result}
use sprut.Io.Ensures.{and_then-ok, wrap_outcome-ok}
use sprut.Router.Auth.Verified.{IsTimely}

module _ (verify : List ℕ → List ℕ → List ℕ → Bool) (c : Conn) (fields : Fields)
    (signature : List ℕ) where
  -- The buffer holds the fields but for the binding, and the signature.
  pub record IsReady (buf : List ℕ) : Type 0 where
    pub laid :
        Laid fields.client_pub_key fields.challenge (put_be 8 fields.timestamp) fields.server_id buf
    pub signature_at : slice 104 168 buf ≡ signature

  copy-IsReady :
      (off : ℕ) (src buf : List ℕ)
      → 168 ≤ off
      → off + length src ≤ auth_buf_size
      → IsReady buf
      → IsReady (copy_at off src buf)
  copy-IsReady off src buf h fits r = record {
    laid = copy-Laid off src buf (omega arith) fits r.laid;
    signature_at =
        slice-copy_at_before 104 168 off src buf (omega arith) h (omega (arith, r.laid.len))
        ∙ r.signature_at;
  }

  abbrev area : List ℕ → List ℕ
  area buf = signed fields ++ drop signed_data_size (slice 168 316 buf)

  length-area :
      (buf : List ℕ) → IsSized fields → length buf ≡ auth_buf_size → length (area buf) ≡ 148
  length-area buf sized h = omega (
    arith,
    length-append (signed fields) (drop signed_data_size (slice 168 316 buf)),
    length-signed fields sized,
    length-drop signed_data_size (slice 168 316 buf),
    length-take (316 - 168) (drop 168 buf),
    length-drop 168 buf,
  )

  fields_at :
      (buf : List ℕ)
      → IsReady buf
      → auth_fields fields.timestamp fields.channel_binding buf ≡ fields
  fields_at buf r = λ i. record {
    challenge = r.laid.challenge_at i;
    timestamp = fields.timestamp;
    server_id = r.laid.server_id_at i;
    client_pub_key = r.laid.key_at i;
    channel_binding = fields.channel_binding;
  }

  signed_region-state :
      (pending : List ℕ) (w : Writer) (buf : List ℕ)
      → IsSized fields
      → IsReady buf
      → signed_region fields.timestamp fields.channel_binding (state c pending w buf)
        ≡ ok (signed fields) (state c pending w (copy_at off_signed_data (area buf) buf))
  unfolding signed_region built
  signed_region-state pending w buf sized r =
      ap (λ f. built (build_signed_data_to (slice 168 316 buf) f) (state c pending w buf))
        (fields_at buf r)
      ∙ ap (λ o. built o (state c pending w buf))
          (build_signed_data_to_lem (slice 168 316 buf) fields sized (
            omega (arith, length-take (316 - 168) (drop 168 buf), length-drop 168 buf, r.laid.len)))

  check_signature-state :
      (pending : List ℕ) (w : Writer) (buf : List ℕ)
      → IsReady buf
      → verify fields.client_pub_key (signed fields) signature ≡ true
      → check_signature verify (signed fields) (state c pending w buf)
        ≡ ok tt (state c pending w buf)
  unfolding check_signature
  check_signature-state pending w buf r good =
      rw ((λ i. verify (r.laid.key_at i) (signed fields) (r.signature_at i)) ∙ good)

  announce-state :
      (pending : List ℕ) (w : Writer) (buf : List ℕ)
      → IsReady buf
      → 2 ≤ w.room
      → (buf' : List ℕ) × (announce (state c pending w buf)
          ≡ ok tt (state c pending (push (type_auth_result ∷ auth_status_ok ∷ []) w) buf'))
        × IsReady buf'
  unfolding announce
  announce-state pending w buf r room = (
    b2,
    wrap_outcome-ok "send auth result" (
        write_region-state c off_work (off_work + 2) (type_auth_result ∷ auth_status_ok ∷ [])
          pending w b2
          (slice-extend off_work 317 318 (auth_status_ok ∷ []) b1 (omega arith) refl
              (omega (arith, r1.laid.len))
            ∙ ap (λ l. l ++ (auth_status_ok ∷ []))
                (slice-copy_at off_work 317 (type_auth_result ∷ []) buf refl
                  (omega (arith, r.laid.len))))
          room),
    copy-IsReady (off_work + 1) (auth_status_ok ∷ []) b1 (omega arith) (omega arith) r1,
  )
    where
      b1 : List ℕ
      b1 = copy_at off_work (type_auth_result ∷ []) buf

      b2 : List ℕ
      b2 = copy_at (off_work + 1) (auth_status_ok ∷ []) b1

      r1 : IsReady b1
      r1 = copy-IsReady off_work (type_auth_result ∷ []) buf (omega arith) (omega arith) r

-- The fields that the server signs for at the time of `env`.
abbrev pub fields_of : Env → List ℕ → List ℕ → List ℕ → List ℕ → Fields
fields_of env key challenge server_id binding = record {
  challenge = challenge;
  timestamp = env.stamp;
  server_id = server_id;
  client_pub_key = key;
  channel_binding = binding;
}

-- The clock at step 12 is within the lifetime of the challenge.
pub record IsFresh (env : Env) : Type 0 where
  pub timely : IsTimely env
  pub not_ahead : env.stamp ≤ env.check
  pub not_expired : env.check ≤ env.stamp + env.challenge_ttl

module _ (verify : List ℕ → List ℕ → List ℕ → Bool) (c : Conn) (env : Env)
    (key challenge server_id binding signature : List ℕ) where
  abbrev fields : Fields
  fields = fields_of env key challenge server_id binding

  abbrev pub IsReadyFor : List ℕ → Type 0
  IsReadyFor = IsReady verify c fields signature

  -- From step 9 on: the success is sent, and the buffer keeps its front.
  pub conclude-state :
      (tls : ConnectionState) (pending : List ℕ) (w : Writer) (buf : List ℕ)
      → c.tls ≡ some tls
      → get_channel_binding tls ≡ inr binding
      → IsSized fields
      → IsReadyFor buf
      → verify key (signed fields) signature ≡ true
      → IsFresh env
      → 2 ≤ w.room
      → (buf' : List ℕ) × (conclude verify env (state c pending w buf)
          ≡ ok tt (state c pending (push (type_auth_result ∷ auth_status_ok ∷ []) w) buf'))
        × IsReadyFor buf'
  unfolding conclude channel_binding settle
  conclude-state tls pending w buf is_tls is_bound sized r good fresh room =
      let (buf', sent, ready) =
        announce-state verify c fields signature pending w signed_buf r' room in
      (
        buf',
        and_then-ok _ (
              ap (λ t. binding_of t (state c pending w buf)) is_tls
              ∙ ap (λ b. bound b (state c pending w buf)) is_bound)
            ∙ and_then-ok _ (signed_region-state verify c fields signature pending w buf sized r)
            ∙ and_then-ok _
                (check_signature-state verify c fields signature pending w signed_buf r' good)
            ∙ and_then-ok _ (
                (check_timestamp_iff env.stamp env.check env.challenge_ttl
                    (state c pending w signed_buf) fresh.timely.stamp_fits fresh.timely.check_fits
                    fresh.timely.ttl_fits).1
                  (fresh.not_ahead, fresh.not_expired))
            ∙ sent,
        ready,
      )
    where
      signed_buf : List ℕ
      signed_buf = copy_at off_signed_data (area verify c fields signature buf) buf

      r' : IsReadyFor signed_buf
      r' =
          copy-IsReady verify c fields signature off_signed_data
            (area verify c fields signature buf) buf (omega arith)
            (omega (arith, length-area verify c fields signature buf sized r.laid.len)) r
