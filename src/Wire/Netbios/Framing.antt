-- ===== src/Wire/Netbios/Framing.antt =====
-- A frame's length survives its header, and no header announces more than 17 bits of it.
use smb1client_rs.Base.{ℕ, ◌/◌, ◌%◌, ◌≤◌, ◌<◌, ◌≡◌, ◌⊎◌, inl, inr, arith, ok, err, bit_and_upper}
use smb1client_rs.Wire.Error.{message_too_long}
use smb1client_rs.Wire.Netbios.{
  HeaderBytes, MessageType, session_message, keep_alive, decode_header, encode_header,
  max_message_len,
}
use native.Mathlib.Decide.{dec_le}

-- The four elements of a header are bytes.
abbrev pub AreBytes : HeaderBytes → Type 0
AreBytes (b₀, b₁, b₂, b₃) = (b₀ < 256) × (b₁ < 256) × (b₂ < 256) × (b₃ < 256)

pub decode_header-encode_header :
    (n : ℕ)
    → n ≤ max_message_len
    → (h : HeaderBytes) × (encode_header n ≡ ok h)
      × AreBytes h
      × (decode_header h ≡ ok (session_message, n))
unfolding encode_header decode_header
decode_header-encode_header n le = (
  (0, n / 65536 % 2 % 256, n / 256 % 256 % 256, n % 256 % 256),
  ground arith,
  omega arith,
  ground (arith, bit_and_upper (n / 65536 % 2 % 256)),
)

encode_header_too_long : (n : ℕ) → max_message_len < n → encode_header n ≡ err (message_too_long n)
unfolding encode_header
encode_header_too_long n h = ground arith

-- A length of 17 bits is written as four bytes, which read back as a session message of that length;
-- a longer one is refused.
pub encode_header_cases :
    (n : ℕ)
    → ((n ≤ max_message_len)
        × ((h : HeaderBytes) × (encode_header n ≡ ok h)
            × AreBytes h
            × (decode_header h ≡ ok (session_message, n))))
      ⊎ (max_message_len < n) × (encode_header n ≡ err (message_too_long n))
encode_header_cases n = elim (dec_le n max_message_len) [
  | yes h ↦ inl (h, decode_header-encode_header n h)
  | no h ↦
      let over : max_message_len < n = omega (arith, h) in inr (over, encode_header_too_long n over)
]

-- If four bytes read as a header, then it is of one of the two types, its seven reserved bits are 0,
-- and the length is at most 131,071.
decode_header-bounds :
    (h : HeaderBytes) (kind : MessageType) (n : ℕ)
    → AreBytes h
    → decode_header h ≡ ok (kind, n)
    → (n ≤ max_message_len)
      × (h.1 < 2)
      × ((kind ≡ session_message) × (h.0 ≡ 0) ⊎ (kind ≡ keep_alive) × (h.0 ≡ 0x85))
unfolding decode_header
decode_header-bounds (b₀, b₁, b₂, b₃) kind n b e = ground (arith, bit_and_upper b₁)
