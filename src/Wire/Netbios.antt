-- ===== src/Wire/Netbios.antt =====
-- src/wire/netbios.rs: the four-byte header of a frame.
pub mod Framing
use smb1client_rs.Base.{
  ℕ, ◌+◌, ◌*◌, ◌/◌, ◌%◌, ◌^◌, not, ltb, ◌==◌, if◌then◌else◌, as_u8, bit_and, Result, ok, err, ◌>>=◌,
  ◌>>◌, guard,
}
use smb1client_rs.Wire.Error.{
  WireError, unknown_netbios_type, reserved_netbios_bits, message_too_long,
}

abbrev pub header_len : ℕ
header_len = 4

abbrev pub max_message_len : ℕ
max_message_len = 0x0001_FFFF

abbrev pub type_session_message : ℕ
type_session_message = 0x00

abbrev pub type_session_keep_alive : ℕ
type_session_keep_alive = 0x85

pub data MessageType : Type 0 where
  session_message keep_alive : MessageType

-- `[u8; HEADER_LEN]`
abbrev pub HeaderBytes : Type 0
HeaderBytes = ℕ × ℕ × ℕ × ℕ

message_type : ℕ → Result WireError MessageType
message_type b =
    if b == type_session_message
    then ok session_message
    else if b == type_session_keep_alive
    then ok keep_alive
    else err (unknown_netbios_type b)

-- The bits that `|` joins do not overlap, so it is a sum.
unfoldable pub decode_header : HeaderBytes → Result WireError (MessageType × ℕ)
unfolding message_type
decode_header (b₀, b₁, b₂, b₃) = do
  kind ← message_type b₀
  guard (bit_and b₁ 0xFE == 0) (reserved_netbios_bits b₁)
  ok (kind, b₁ % 2 * 2 ^ 16 + (b₂ * 2 ^ 8 + b₃))

unfoldable pub encode_header : ℕ → Result WireError HeaderBytes
encode_header length = do
  guard (not (ltb max_message_len length)) (message_too_long length)
  ok (
    type_session_message,
    as_u8 (length / 2 ^ 16 % 2),
    as_u8 (length / 2 ^ 8 % 2 ^ 8),
    as_u8 (length % 2 ^ 8),
  )
