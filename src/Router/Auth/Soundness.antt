-- ===== src/Router/Auth/Soundness.antt =====
-- What a successful authenticate has checked, and what every outcome leaves alone.
use sprut.Base.{
  inl, refl, leb, Bool-cases, ◌⊎◌, take, ◌≤◌, inr, ◌+◌, drop, ◌-◌, length-take, ◌∙◌, arith, [], ◌∷◌,
  ◌≡◌, Bool, length, ℕ, List,
}
use mathlib.Core.Path.{subst}
use sprut.Router.Auth.{
  put_random, off_timestamp, off_challenge, off_pub_key, put, exchange, conclude, write_region,
  off_signature, read_region, expect_type, off_work, auth_buf_size, respond, Env, AuthState,
  send_challenge,
}
use sprut.Router.Auth.Verified.{conclude-Ensures, IsVerified, IsTimely}
use sprut.Router.Auth.Keeps.{
  Keeps-slice, Keeps-narrow, write_region-Keeps, read_region-Keeps, copy-Keeps, expect_type-Keeps,
  Keeps-trans, Keeps,
}
use sprut.Io.Ensures.{Ensures-wrap, Ensures-map, Ensures-and_then, Ensures}
use sprut.Bytes.Slices.{
  slice-copy_at_before, slice-copy_at, slice-copy_at_after, length-copy_at, slice, copy_at,
}
use sprut.Protocol.{
  type_client_hello, timestamp_size, public_key_size, signature_size, type_server_challenge,
  type_client_response,
}
use sprut.Io.{and_then, ◌>>◌, Error, read_full, wrap_outcome}
use sprut.Bytes.{length-put_be, put_be}

send_challenge-Keeps :
    (s : AuthState)
    → length s.buf ≡ auth_buf_size
    → Ensures (λ _. Keeps 104 s) (λ _. Keeps 104 s) (send_challenge s)
unfolding send_challenge
send_challenge-Keeps s h =
    let s1 : AuthState = record s { buf = copy_at off_work (type_server_challenge ∷ []) s.buf } in
    let k1 = copy-Keeps 104 off_work (type_server_challenge ∷ []) s (omega arith) (omega arith) in
    let c = slice 32 64 s1.buf in
    let s2 : AuthState = record s1 { buf = copy_at 317 c s1.buf } in
    let k2 = Keeps-trans k1 (
      copy-Keeps 104 317 c s1 (omega arith)
        (omega (arith, k1.len, length-take (64 - 32) (drop 32 s1.buf)))) in
    let t = slice 64 72 s2.buf in
    let s3 : AuthState = record s2 { buf = copy_at 349 t s2.buf } in
    let k3 = Keeps-trans k2 (
      copy-Keeps 104 349 t s2 (omega arith)
        (omega (arith, k2.len, length-take (72 - 64) (drop 64 s2.buf)))) in
    let d = slice 72 104 s3.buf in
    let s4 : AuthState = record s3 { buf = copy_at 357 d s3.buf } in
    let k4 = Keeps-trans k3 (
      copy-Keeps 104 357 d s3 (omega arith)
        (omega (arith, k3.len, length-take (104 - 72) (drop 72 s3.buf)))) in
    Ensures-wrap (λ _. Keeps 104 s) (λ _. Keeps 104 s) (λ _. Keeps 104 s) "send challenge"
      (write_region 316 389 s4) (λ e s' u. u)
      (Ensures-map (λ _. Keeps 104 s4) (λ _. Keeps 104 s) (λ _. Keeps 104 s4) (λ _. Keeps 104 s)
        (write_region 316 389 s4) (λ a s' v. Keeps-trans k4 v) (λ e s' v. Keeps-trans k4 v)
        (write_region-Keeps 104 316 389 s4))

-- What every outcome leaves alone: the buffer's length, the server's id in it, and the connection but
-- for its two directions and its deadline.
pub record Intact (s s' : AuthState) : Type 0 where
  pub len : length s'.buf ≡ length s.buf
  pub server_id : slice 72 104 s'.buf ≡ slice 72 104 s.buf
  pub tls : s'.conn.tls ≡ s.conn.tls
  pub closed : s'.conn.closed ≡ s.conn.closed

pub Intact-trans : {s t u : AuthState} → Intact s t → Intact t u → Intact s u
Intact-trans a b = record {
  len = b.len ∙ a.len;
  server_id = b.server_id ∙ a.server_id;
  tls = b.tls ∙ a.tls;
  closed = b.closed ∙ a.closed;
}

Keeps-Intact : {s t : AuthState} → Keeps 104 s t → Intact s t
Keeps-Intact a = record {
  len = a.len;
  server_id = Keeps-slice 72 104 (omega arith) a;
  tls = a.tls;
  closed = a.closed;
}

-- A write in front of the server's id.
copy-Intact :
    (off : ℕ) (src : List ℕ) (s : AuthState)
    → off + length src ≤ 72
    → length s.buf ≡ auth_buf_size
    → Intact s (record s { buf = copy_at off src s.buf })
copy-Intact off src s h l = record {
  len = length-copy_at off src s.buf (omega arith);
  server_id = slice-copy_at_after 72 104 off src s.buf h (omega arith);
  tls = refl;
  closed = refl;
}

read_key-Intact :
    (s : AuthState)
    → length s.buf ≡ auth_buf_size
    → Ensures (λ _. Intact s) (λ _. Intact s) (read_region off_pub_key public_key_size s)
unfolding read_region read_full
read_key-Intact s l =
    let got = take 32 s.conn.reader.pending in
    let kept = copy-Intact 0 got s (omega (arith, length-take 32 s.conn.reader.pending)) l in
    elim (Bool-cases (leb 32 (length s.conn.reader.pending))) [
      | inl whole ↦
          rw whole
            (record { len = kept.len; server_id = kept.server_id; tls = refl; closed = refl })
      | inr part ↦
          rw part (record { len = kept.len; server_id = kept.server_id; tls = refl; closed = refl })
    ]

module _ (verify : List ℕ → List ℕ → List ℕ → Bool) where
  abbrev Checked : Env → AuthState → Unit {0} → AuthState → Type 0
  Checked env s a s' = Keeps 104 s s' × IsVerified verify env s.conn.tls s'.buf

  -- The steps from 6 on.
  respond-Ensures :
      (env : Env) (s : AuthState)
      → IsTimely env
      → length s.buf ≡ auth_buf_size
      → Ensures (Checked env s) (λ _. Keeps 104 s) (respond verify env s)
  unfolding respond
  respond-Ensures env s t h =
      Ensures-and_then (λ _. Keeps 104 s) (Checked env s) (λ _. Keeps 104 s) (send_challenge s) _
        (send_challenge-Keeps s h)
        λ _ s1 k1.
          Ensures-and_then (λ _. Keeps 104 s) (Checked env s) (λ _. Keeps 104 s)
            (expect_type "read response type" type_client_response s1) _
            (Ensures-map (λ _. Keeps 104 s1) (λ _. Keeps 104 s) (λ _. Keeps 104 s1)
              (λ _. Keeps 104 s) (expect_type "read response type" type_client_response s1)
              (λ a u v. Keeps-trans k1 v) (λ e u v. Keeps-trans k1 v)
              (expect_type-Keeps 104 type_client_response "read response type" s1 (omega arith)
                (k1.len ∙ h)))
            λ _ s2 k2.
              Ensures-and_then (λ _. Keeps 104 s) (Checked env s) (λ _. Keeps 104 s)
                (wrap_outcome "read signature" (read_region off_signature signature_size s2)) _
                (Ensures-wrap (λ _. Keeps 104 s) (λ _. Keeps 104 s) (λ _. Keeps 104 s)
                  "read signature" (read_region off_signature signature_size s2) (λ e u v. v)
                  (Ensures-map (λ _. Keeps 104 s2) (λ _. Keeps 104 s) (λ _. Keeps 104 s2)
                    (λ _. Keeps 104 s) (read_region off_signature signature_size s2)
                    (λ a u v. Keeps-trans k2 v) (λ e u v. Keeps-trans k2 v)
                    (read_region-Keeps 104 off_signature signature_size s2 (omega arith)
                      (omega (arith, k2.len)))))
                λ _ s3 k3.
                  Ensures-map (λ _ s'. Keeps 168 s3 s' × IsVerified verify env s3.conn.tls s'.buf)
                    (Checked env s) (λ _. Keeps 168 s3) (λ _. Keeps 104 s) (conclude verify env s3)
                    (λ a u v. (
                      Keeps-trans k3 (Keeps-narrow (omega arith) v.0),
                      subst (λ x. IsVerified verify env x u.buf) k3.tls v.1,
                    ))
                    (λ e u v. Keeps-trans k3 (Keeps-narrow (omega arith) v))
                    (conclude-Ensures verify env s3 t (k3.len ∙ h))

  -- What a success shows: the random bytes are the challenge that the client's key has signed, and all
  -- of it is still in the buffer.
  pub record Accepted (env : Env) (s s' : AuthState) : Type 0 where
    pub intact : Intact s s'
    pub random : List ℕ
    pub drawn : env.random ≡ inr random
    pub challenge : slice 32 64 s'.buf ≡ take 32 random
    pub checked : IsVerified verify env s.conn.tls s'.buf

  -- Behind the random bytes.
  drawn-Ensures :
      (env : Env) (s s2 : AuthState) (random : List ℕ)
      → IsTimely env
      → env.random ≡ inr random
      → length random ≡ 32
      → length s.buf ≡ auth_buf_size
      → Intact s s2
      → Ensures
          (λ _. Accepted env s)
          (λ _. Intact s)
          ((put off_challenge (take 32 random)
              >> (put off_timestamp (put_be timestamp_size env.stamp) >> respond verify env))
            s2)
  drawn-Ensures env s s2 random t d r h k =
      Ensures-map (Checked env s4) (λ _. Accepted env s) (λ _. Keeps 104 s4) (λ _. Intact s)
        (respond verify env s4)
        (λ a u v. record {
          intact = Intact-trans k4 (Keeps-Intact v.0);
          random = random;
          drawn = d;
          challenge = Keeps-slice 32 64 (omega arith) v.0 ∙ stamped ∙ challenged;
          checked = subst (λ x. IsVerified verify env x u.buf) k4.tls v.1;
        })
        (λ e u v. Intact-trans k4 (Keeps-Intact v)) (respond-Ensures env s4 t (k4.len ∙ h))
    where
      s3 : AuthState
      s3 = record s2 { buf = copy_at 32 (take 32 random) s2.buf }

      k3 : Intact s s3
      k3 =
          Intact-trans k
            (copy-Intact 32 (take 32 random) s2 (omega (arith, length-take 32 random)) (k.len ∙ h))

      s4 : AuthState
      s4 = record s3 { buf = copy_at 64 (put_be timestamp_size env.stamp) s3.buf }

      k4 : Intact s s4
      k4 = Intact-trans k3 (
          copy-Intact 64 (put_be timestamp_size env.stamp) s3
            (omega (arith, length-put_be timestamp_size env.stamp)) (k3.len ∙ h))

      challenged : slice 32 64 s3.buf ≡ take 32 random
      challenged =
          slice-copy_at 32 64 (take 32 random) s2.buf (omega (arith, length-take 32 random))
            (omega (arith, k.len))

      stamped : slice 32 64 s4.buf ≡ slice 32 64 s3.buf
      stamped =
          slice-copy_at_before 32 64 64 (put_be timestamp_size env.stamp) s3.buf (omega arith)
            (omega arith) (omega (arith, k3.len, length-put_be timestamp_size env.stamp))

  pub exchange-Ensures :
      (env : Env) (s : AuthState)
      → IsTimely env
      → ((random : List ℕ) → env.random ≡ inr random → length random ≡ 32)
      → length s.buf ≡ auth_buf_size
      → Ensures (λ _. Accepted env s) (λ _. Intact s) (exchange verify env s)
  unfolding exchange
  exchange-Ensures env s t r h =
      Ensures-and_then (λ _. Keeps 104 s) (λ _. Accepted env s) (λ _. Intact s)
        (expect_type "read hello type" type_client_hello s) _
        (Ensures-map (λ _. Keeps 104 s) (λ _. Keeps 104 s) (λ _. Keeps 104 s) (λ _. Intact s)
          (expect_type "read hello type" type_client_hello s) (λ a u v. v) (λ e u v. Keeps-Intact v)
          (expect_type-Keeps 104 type_client_hello "read hello type" s (omega arith) h))
        λ _ s1 k1.
          Ensures-and_then (λ _. Intact s) (λ _. Accepted env s) (λ _. Intact s)
            (wrap_outcome "read pubkey" (read_region off_pub_key public_key_size s1)) _
            (Ensures-wrap (λ _. Intact s) (λ _. Intact s) (λ _. Intact s) "read pubkey"
              (read_region off_pub_key public_key_size s1) (λ e u v. v)
              (Ensures-map (λ _. Intact s1) (λ _. Intact s) (λ _. Intact s1) (λ _. Intact s)
                (read_region off_pub_key public_key_size s1)
                (λ a u v. Intact-trans (Keeps-Intact k1) v)
                (λ e u v. Intact-trans (Keeps-Intact k1) v) (read_key-Intact s1 (k1.len ∙ h))))
            λ _ s2 k2. by_random s2 k2 env.random refl
    where
      by_random :
          (s2 : AuthState)
          → Intact s s2
          → (x : Error ⊎ List ℕ) → env.random ≡ x
          → Ensures
              (λ _. Accepted env s)
              (λ _. Intact s)
              (and_then
                (put_random x s2)
                (λ _. put off_timestamp (put_be timestamp_size env.stamp) >> respond verify env))
      by_random s2 k2 (inl e) d = k2
      by_random s2 k2 (inr random) d = drawn-Ensures env s s2 random t d (r random d) h k2
