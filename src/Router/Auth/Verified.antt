-- ===== src/Router/Auth/Verified.antt =====
-- Steps 9 to 13 of authenticate: what is accepted has been verified.
use sprut.Router.Auth.{
  bound, binding_of, channel_binding, conclude, check_timestamp, check_signature, settle, announce,
  write_region, off_work, auth_fields, auth_buf_size, AuthState, signed_region, Env,
}
use sprut.Base.{
  none, ◌⊎◌, tests, sym, ◌∙◌, ap, ◌%◌, ltb, inl, Bool-cases, [], ◌∷◌, length-append, refl, ◌++◌,
  length-drop, drop, ◌-◌, ◌≤◌, length-take, ◌+◌, true, arith, inr, some, ◌≡◌, length, Option, Bool,
  ◌^◌, ℕ, ◌<◌, List,
}
use sprut.Protocol.ChannelBinding.{length-get_channel_binding, get_channel_binding, ConnectionState}
use sprut.Io.Ensures.{Ensures-and_then, Ensures-map, Ensures-wrap, Ensures}
use sprut.Router.Auth.Keeps.{Keeps-slice, write_region-Keeps, Keeps-trans, copy-Keeps, Keeps}
use sprut.Protocol.SignedData.{
  length-signed, build_signed_data_to_lem, signed_data_size, IsSized, signed,
}
use sprut.Bytes.Slices.{copy_at, slice}
use sprut.Io.{and_then, Error, ◌>>◌}
use sprut.Protocol.{auth_status_ok, type_auth_result}

-- The server's clock readings and the lifetime are Unix times of this era.
pub record IsTimely (env : Env) : Type 0 where
  pub stamp_fits : env.stamp < 2 ^ 63
  pub check_fits : env.check < 2 ^ 63
  pub ttl_fits : env.challenge_ttl < 2 ^ 63

module _ (verify : List ℕ → List ℕ → List ℕ → Bool) where
  -- The key at the front of the buffer has signed, for this challenge, this server and this TLS
  -- connection, and in time.
  pub record IsVerified (env : Env) (tls : Option ConnectionState) (buf : List ℕ) : Type 0 where
    pub state : ConnectionState
    pub binding : List ℕ
    pub is_tls : tls ≡ some state
    pub bound : get_channel_binding state ≡ inr binding
    pub verified :
        verify (slice 0 32 buf) (signed (auth_fields env.stamp binding buf)) (slice 104 168 buf)
        ≡ true
    pub not_ahead : env.stamp ≤ env.check
    pub not_expired : env.check ≤ env.stamp + env.challenge_ttl

  -- The fields in a buffer of the right length have the right sizes.
  fields-IsSized :
      (env : Env) (binding buf : List ℕ)
      → length buf ≡ auth_buf_size
      → length binding ≡ 32
      → env.stamp < 2 ^ 63
      → IsSized (auth_fields env.stamp binding buf)
  fields-IsSized env binding buf h b t = record {
    challenge_len = part 32 64 refl (omega arith);
    timestamp_fits = omega arith;
    server_id_len = part 72 104 refl (omega arith);
    client_pub_key_len = part 0 32 refl (omega arith);
    channel_binding_len = b;
  }
    where
      part : (lo hi : ℕ) → lo + 32 ≡ hi → hi ≤ length buf → length (slice lo hi buf) ≡ 32
      part lo hi e l = omega (arith, length-take (hi - lo) (drop lo buf), length-drop lo buf)

  signed_region-Keeps :
      (env : Env) (binding : List ℕ) (s : AuthState)
      → length s.buf ≡ auth_buf_size
      → length binding ≡ 32
      → env.stamp < 2 ^ 63
      → Ensures
          (λ signed_data s'.
            Keeps 168 s s' × (signed_data ≡ signed (auth_fields env.stamp binding s.buf)))
          (λ e s'. Keeps 168 s s')
          (signed_region env.stamp binding s)
  unfolding signed_region
  signed_region-Keeps env binding s h b t =
      rw
        (build_signed_data_to_lem (slice 168 316 s.buf) (auth_fields env.stamp binding s.buf)
          (fields-IsSized env binding s.buf h b t) (omega (arith, area)))
        (copy-Keeps 168 168 _ s (omega arith) (omega (arith, written)), refl)
    where
      area : length (slice 168 316 s.buf) ≡ 148
      area = omega (arith, length-take (316 - 168) (drop 168 s.buf), length-drop 168 s.buf)

      written :
          length (
            signed (auth_fields env.stamp binding s.buf)
            ++ drop signed_data_size (slice 168 316 s.buf))
          ≡ 148
      written = omega (
        arith,
        length-append (signed (auth_fields env.stamp binding s.buf))
            (drop signed_data_size (slice 168 316 s.buf)),
        length-signed (auth_fields env.stamp binding s.buf)
            (fields-IsSized env binding s.buf h b t),
        length-drop signed_data_size (slice 168 316 s.buf),
        area,
      )

  announce-Keeps :
      (s : AuthState)
      → length s.buf ≡ auth_buf_size
      → Ensures (λ _. Keeps 168 s) (λ _. Keeps 168 s) (announce s)
  unfolding announce
  announce-Keeps s h =
      let s1 : AuthState = record s { buf = copy_at off_work (type_auth_result ∷ []) s.buf } in
      let k1 = copy-Keeps 168 off_work (type_auth_result ∷ []) s (omega arith) (omega arith) in
      let s2 : AuthState = record s1 {
        buf = copy_at (off_work + 1) (auth_status_ok ∷ []) s1.buf;
      } in
      let k2 =
        copy-Keeps 168 (off_work + 1) (auth_status_ok ∷ []) s1 (omega arith)
          (omega (arith, k1.len)) in
      Ensures-wrap (λ _. Keeps 168 s) (λ _. Keeps 168 s) (λ _. Keeps 168 s) "send auth result"
        (write_region off_work (off_work + 2) s2) (λ e s' u. u)
        (Ensures-map (λ _. Keeps 168 s2) (λ _. Keeps 168 s) (λ _. Keeps 168 s2) (λ _. Keeps 168 s)
          (write_region off_work (off_work + 2) s2) (λ a s' v. Keeps-trans (Keeps-trans k1 k2) v)
          (λ e s' v. Keeps-trans (Keeps-trans k1 k2) v)
          (write_region-Keeps 168 off_work (off_work + 2) s2))

  fields-Keeps :
      (timestamp : ℕ) (binding : List ℕ) {s t : AuthState}
      → Keeps 168 s t
      → auth_fields timestamp binding t.buf ≡ auth_fields timestamp binding s.buf
  fields-Keeps timestamp binding k = λ i. record {
    challenge = Keeps-slice 32 64 (omega arith) k i;
    timestamp = timestamp;
    server_id = Keeps-slice 72 104 (omega arith) k i;
    client_pub_key = Keeps-slice 0 32 (omega arith) k i;
    channel_binding = binding;
  }

  -- Behind step 9: whatever is accepted has been verified.
  settle-Ensures :
      (env : Env) (state : ConnectionState) (binding : List ℕ) (s : AuthState)
      → IsTimely env
      → length s.buf ≡ auth_buf_size
      → s.conn.tls ≡ some state
      → get_channel_binding state ≡ inr binding
      → Ensures
          (λ _ s'. Keeps 168 s s' × IsVerified env s.conn.tls s'.buf)
          (λ _. Keeps 168 s)
          (settle verify env binding s)
  unfolding settle
  settle-Ensures env state binding s t h is_tls bound =
      Ensures-and_then
        (λ signed_data s'.
          Keeps 168 s s' × (signed_data ≡ signed (auth_fields env.stamp binding s.buf)))
        (λ _ s'. Keeps 168 s s' × IsVerified env s.conn.tls s'.buf) (λ _. Keeps 168 s)
        (signed_region env.stamp binding s) _
        (signed_region-Keeps env binding s h (length-get_channel_binding state binding bound)
          t.stamp_fits)
        (λ signed_data s' q. checked signed_data s' q.0 q.1)
    where
      checked :
          (signed_data : List ℕ) (s' : AuthState)
          → Keeps 168 s s'
          → signed_data ≡ signed (auth_fields env.stamp binding s.buf)
          → Ensures
              (λ _ s''. Keeps 168 s s'' × IsVerified env s.conn.tls s''.buf)
              (λ _. Keeps 168 s)
              ((check_signature verify signed_data
                  >> (check_timestamp env.stamp env.check env.challenge_ttl >> announce))
                s')
      checked signed_data s' k e =
          elim (Bool-cases (verify (slice 0 32 s'.buf) signed_data (slice 104 168 s'.buf))) [
            | inr bad ↦ rw bad k
            | inl good ↦ rw good (elim (Bool-cases (ltb ((env.check + 60) % 2 ^ 64) env.stamp)) [
              | inl ahead ↦ rw ahead k
              | inr near ↦
                  rw near
                    (elim (Bool-cases
                      (ltb env.challenge_ttl ((env.check + 2 ^ 64 - env.stamp) % 2 ^ 64))) [
                        | inl old ↦ rw old k
                        | inr fresh ↦ rw fresh (
                            Ensures-map (λ _. Keeps 168 s')
                              (λ _ s''. Keeps 168 s s'' × IsVerified env s.conn.tls s''.buf)
                              (λ _. Keeps 168 s') (λ _. Keeps 168 s) (announce s')
                              (λ a s'' v. (
                                Keeps-trans k v,
                                record {
                                  state = state;
                                  binding = binding;
                                  is_tls = is_tls;
                                  bound = bound;
                                  verified =
                                      (λ i.
                                        verify (Keeps-slice 0 32 (omega arith) v i)
                                          ((ap signed
                                                (fields-Keeps env.stamp binding (Keeps-trans k v))
                                              ∙ sym e)
                                            i)
                                          (Keeps-slice 104 168 (omega arith) v i))
                                      ∙ good;
                                  not_ahead = omega (tests, near, fresh);
                                  not_expired = omega (tests, near, fresh);
                                },
                              ))
                              (λ x s'' v. Keeps-trans k v) (announce-Keeps s' (k.len ∙ h)))
                      ])
            ])
          ]

  -- From step 9 on.
  pub conclude-Ensures :
      (env : Env) (s : AuthState)
      → IsTimely env
      → length s.buf ≡ auth_buf_size
      → Ensures
          (λ _ s'. Keeps 168 s s' × IsVerified env s.conn.tls s'.buf)
          (λ _. Keeps 168 s)
          (conclude verify env s)
  unfolding conclude channel_binding binding_of bound
  conclude-Ensures env s t h = by_tls s.conn.tls refl
    where
      same : Keeps 168 s s
      same = record { front = refl; len = refl; tls = refl; closed = refl }

      by_binding :
          (state : ConnectionState)
          → s.conn.tls ≡ some state
          → (x : Error ⊎ List ℕ) → get_channel_binding state ≡ x
          → Ensures
              (λ _ s'. Keeps 168 s s' × IsVerified env s.conn.tls s'.buf)
              (λ _. Keeps 168 s)
              (and_then (bound x s) (settle verify env))
      by_binding state e (inl x) p = same
      by_binding state e (inr b) p = settle-Ensures env state b s t h e p

      by_tls :
          (x : Option ConnectionState)
          → s.conn.tls ≡ x
          → Ensures
              (λ _ s'. Keeps 168 s s' × IsVerified env s.conn.tls s'.buf)
              (λ _. Keeps 168 s)
              (and_then (binding_of x s) (settle verify env))
      by_tls none e = same
      by_tls (some state) e = by_binding state e (get_channel_binding state) refl
