-- ===== src/Wire/Message.antt =====
-- `Message` and the assembly of messages of src/wire/mod.rs. The header is read and written by a
-- derive of the binrw crate, which `Binrw` stands for.
pub mod Shape
pub mod RoundTrip
use Prim.Native.String.{String}
use smb1client_rs.Base.{
  ℕ, zero, suc, ◌+◌, ◌-◌, ◌*◌, ◌/◌, ◌<◌, ◌≡◌, Bool, true, false, ◌||◌, List, [], ◌∷◌, ◌++◌, length,
  drop, take, ◌==◌, if◌then◌else◌, Option, none, some, get_elem?, get_range, Result, ok, err, ok_or,
  ◌>>=◌, ◌>>◌, as_u8, as_u16, to_le_bytes, from_le_bytes,
}
use smb1client_rs.Wire.Error.{
  WireError, truncated, unexpected_command, no_response_body, unexpected_word_count,
}
use smb1client_rs.Wire.Header.{SmbHeader, header_len}
use smb1client_rs.Wire.Binrw.{Binrw}
use smb1client_rs.Wire.Netbios
use smb1client_rs.Wire.Offsets.{block_at}

pub record Message : Type 0 where
  pub header : SmbHeader
  pub bytes : List ℕ
  pub word_count : ℕ
  pub byte_count : ℕ

-- The two bytes at `at`, little-endian.
abbrev u16_of : Option (List ℕ) → Option ℕ
u16_of (some (lo ∷ hi ∷ rest)) = some (from_le_bytes lo hi)
u16_of _ = none

abbrev u16_at : ℕ → List ℕ → Option ℕ
u16_at at bytes = u16_of (get_range at (at + 2) bytes)

-- `Message::parse`
unfoldable pub parse : Binrw → List ℕ → Result WireError Message
parse binrw bytes = do
  header ← binrw.read_header bytes
  word_count ←
      ok_or (get_elem? bytes header_len) (truncated "WordCount" (header_len + 1) (length bytes))
  let byte_count_at = header_len + 1 + word_count * 2
  byte_count ←
      ok_or (u16_at byte_count_at bytes) (truncated "words" (byte_count_at + 2) (length bytes))
  ok (record { header = header; bytes = bytes; word_count = word_count; byte_count = byte_count })

-- `Message::words`
unfoldable pub words : Message → List ℕ
words m = take (m.word_count * 2) (drop (header_len + 1) m.bytes)

-- `Message::byte_area_offset`
abbrev pub byte_area_offset : Message → ℕ
byte_area_offset m = header_len + 1 + m.word_count * 2 + 2

-- `Message::block`
abbrev pub block : Message → String → ℕ → ℕ → Result WireError (List ℕ)
block m = block_at m.bytes

-- `Message::byte_area`
unfoldable pub byte_area : Message → Result WireError (List ℕ)
byte_area m = block m "ByteCount" (byte_area_offset m) m.byte_count

-- `Message::byte_area_to_end`
unfoldable pub byte_area_to_end : Message → List ℕ
byte_area_to_end m = drop (byte_area_offset m) m.bytes

-- `Message::is_bodyless`
abbrev pub is_bodyless : Message → Bool
is_bodyless m = m.word_count == 0

abbrev pub contains : List ℕ → ℕ → Bool
contains [] n = false
contains (x ∷ xs) n = x == n || contains xs n

-- `Message::expect_words`
unfoldable pub expect_words : Message → ℕ → List ℕ → String → Result WireError (Unit {0})
expect_words m command accepted describe =
    if m.header.command == command
    then (if contains accepted m.word_count
        then ok tt
        else if is_bodyless m
        then err (no_response_body command m.header.status)
        else err (unexpected_word_count command m.word_count describe))
    else err (unexpected_command command m.header.command)

-- `message`
unfoldable pub message : Binrw → SmbHeader → List ℕ → Result WireError (List ℕ)
message binrw header body = do out ← binrw.write_header header; ok (out ++ body)

-- `frame`
unfoldable pub frame : List ℕ → Result WireError (List ℕ)
frame message = do
  (b₀, b₁, b₂, b₃) ← Netbios.encode_header (length message)
  ok (b₀ ∷ b₁ ∷ b₂ ∷ b₃ ∷ message)

-- `body`
unfoldable pub body : List ℕ → List ℕ → List ℕ
body words byte_area =
    as_u8 (length words / 2) ∷ (words ++ (to_le_bytes (as_u16 (length byte_area)) ++ byte_area))
