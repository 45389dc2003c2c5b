-- ===== src/Protocol.antt =====
-- The constants of pkg/protocol/types.go; the messages are modelled in the children.
pub mod Transmits
pub mod ClientHello
pub mod ServerChallenge
pub mod ClientResponse
pub mod AuthResult
pub mod ClientMessage
pub mod ServerMessage
pub mod ChannelBinding
pub mod SignedData
use sprut.Base.{ℕ}

abbrev pub type_client_hello : ℕ
type_client_hello = 0x01

abbrev pub type_server_challenge : ℕ
type_server_challenge = 0x02

abbrev pub type_client_response : ℕ
type_client_response = 0x03

abbrev pub type_auth_result : ℕ
type_auth_result = 0x04

abbrev pub public_key_size : ℕ
public_key_size = 32

abbrev pub challenge_size : ℕ
challenge_size = 32

abbrev pub timestamp_size : ℕ
timestamp_size = 8

abbrev pub server_id_size : ℕ
server_id_size = 32

abbrev pub signature_size : ℕ
signature_size = 64

abbrev pub channel_binding_size : ℕ
channel_binding_size = 32

abbrev pub auth_status_ok : ℕ
auth_status_ok = 0x00

abbrev pub max_message_size : ℕ
max_message_size = 65536

abbrev pub max_msg_id_len : ℕ
max_msg_id_len = 256

abbrev pub max_error_msg_len : ℕ
max_error_msg_len = 1024
