-- ===== src/Protocol/SignedData/Injective.antt =====
-- A signature over the signed data binds every field.
use sprut.Protocol.SignedData.{
  build_signed_data_to_lem, build_signed_data_to, signed_data_size, length-put_be, put_be, ◌≡◌,
  Fields, IsSized, signed, protocol_version,
}
use sprut.Base.{codes, take, some, length, ◌≤◌, ℕ, List, refl, ap, sym, ◌∙◌, append-injective}
use sprut.Bytes.{be, be-put_be}

-- Two sets of fields of the right sizes have the same signed data only if they agree in the
-- challenge, the timestamp, the server's id, the client's key and the channel binding.
signed-injective :
    (f g : Fields)
    → IsSized f
    → IsSized g
    → signed f ≡ signed g
    → (f.challenge ≡ g.challenge)
      × (f.timestamp ≡ g.timestamp)
      × (f.server_id ≡ g.server_id)
      × (f.client_pub_key ≡ g.client_pub_key)
      × (f.channel_binding ≡ g.channel_binding)
signed-injective f g s t e =
    let (_, e1) = append-injective protocol_version protocol_version _ _ refl e in
    let (challenges, e2) =
      append-injective f.challenge g.challenge _ _ (s.challenge_len ∙ sym t.challenge_len) e1 in
    let (stamps, e3) =
      append-injective (put_be 8 f.timestamp) (put_be 8 g.timestamp) _ _
        (length-put_be 8 f.timestamp ∙ sym (length-put_be 8 g.timestamp)) e2 in
    let (ids, e4) =
      append-injective f.server_id g.server_id _ _ (s.server_id_len ∙ sym t.server_id_len) e3 in
    let (keys, bindings) =
      append-injective f.client_pub_key g.client_pub_key _ _
        (s.client_pub_key_len ∙ sym t.client_pub_key_len) e4 in
    (
      challenges,
      sym (be-put_be 8 f.timestamp s.timestamp_fits)
          ∙ ap be stamps
          ∙ be-put_be 8 g.timestamp t.timestamp_fits,
      ids,
      keys,
      bindings,
    )

-- What BuildSignedDataTo returns begins with the protocol's version, and binds every field: from
-- fields of the right sizes, into any buffers that are long enough, it returns the same bytes only if
-- the fields agree in the challenge, the timestamp, the server's id, the client's key and the channel
-- binding.
pub build_signed_data_to-injective :
    (f g : Fields) (buf buf' left left' returned : List ℕ)
    → IsSized f
    → IsSized g
    → signed_data_size ≤ length buf
    → signed_data_size ≤ length buf'
    → build_signed_data_to buf f ≡ some (left, returned)
    → build_signed_data_to buf' g ≡ some (left', returned)
    → (take 12 returned ≡ codes "goro-auth-v1")
      × (f.challenge ≡ g.challenge)
      × (f.timestamp ≡ g.timestamp)
      × (f.server_id ≡ g.server_id)
      × (f.client_pub_key ≡ g.client_pub_key)
      × (f.channel_binding ≡ g.channel_binding)
build_signed_data_to-injective f g buf buf' left left' returned s t room room' e e' =
    let same : signed f ≡ returned = cc (build_signed_data_to_lem buf f s room) in
    let same' : signed g ≡ returned = cc (build_signed_data_to_lem buf' g t room') in
    let (a, b, c, d, x) = signed-injective f g s t (same ∙ sym same') in
    (ap (take 12) (sym same), a, b, c, d, x)
