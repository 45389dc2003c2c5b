-- ===== src/Protocol/ChannelBinding.antt =====
-- pkg/protocol/channelbinding.go. Of tls.ConnectionState the code uses whether the handshake is
-- complete and ExportKeyingMaterial at the empty context, a function of the label and the length.
use sprut.Base.{
  arith, ◌∙◌, Bool-cases, ap, [], replicate, length, if◌then◌else◌, inl, inr, ◌≡◌, ◌⊎◌, Bool,
  String, List, ℕ,
}
use sprut.Io.{message, wrap, Error}
use sprut.Protocol.{channel_binding_size}
use sprut.Bytes.Slices.{length-copy_at, copy_at}

pub record ConnectionState : Type 0 where
  pub handshake_complete : Bool
  pub export_keying_material : String → ℕ → Error ⊎ List ℕ

abbrev pub channel_binding_label : String
channel_binding_label = "EXPORTER-goro-auth-v1"

-- The exported bytes are copied into a zeroed array of 32.
filled : Error ⊎ List ℕ → Error ⊎ List ℕ
filled (inl e) = inl (wrap "export keying material" e)
filled (inr exported) = inr (copy_at 0 exported (replicate channel_binding_size 0))

unfoldable pub get_channel_binding : ConnectionState → Error ⊎ List ℕ
unfolding filled
get_channel_binding state =
    if state.handshake_complete
    then filled (state.export_keying_material channel_binding_label channel_binding_size)
    else inl (message "TLS handshake not complete" [])

length-filled :
    (x : Error ⊎ List ℕ) (b : List ℕ) → filled x ≡ inr b → length b ≡ channel_binding_size
unfolding filled
length-filled (inl e) b h = cc
length-filled (inr exported) b h =
    let e : b ≡ copy_at 0 exported (replicate channel_binding_size 0) = cc in
    ap length e ∙ length-copy_at 0 exported (replicate channel_binding_size 0) (omega arith)

-- A binding has 32 bytes, whatever was exported.
pub length-get_channel_binding :
    (state : ConnectionState) (b : List ℕ)
    → get_channel_binding state ≡ inr b
    → length b ≡ channel_binding_size
unfolding get_channel_binding
length-get_channel_binding state b h = elim (Bool-cases state.handshake_complete) [
  | inl done ↦ length-filled _ b (rw done at h)
  | inr open_yet ↦ cc (rw open_yet at h)
]
