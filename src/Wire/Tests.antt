-- ===== src/Wire/Tests.antt =====
-- The theorems on the wire at concrete inputs. `le_codec` writes a header in the order of its fields,
-- little-endian, as src/wire/header.rs declares it.
use smb1client_rs.Base.{
  take-append, drop-append, ℕ, ◌+◌, ◌*◌, ◌/◌, ◌%◌, ◌^◌, ◌≤◌, ◌<◌, ◌≡◌, ◌⊎◌, refl, sym, ◌∙◌, ap,
  none, some, List, [], ◌∷◌, ◌++◌, length, take, drop, arith, Result, ok, err, to_le_bytes,
  from_le_bytes, get_elem?, ok-injective, length-append,
}
use smb1client_rs.Wire.Error.{WireError, malformed, message_too_long, block_out_of_range}
use smb1client_rs.Wire.Header.{SmbHeader, request}
use smb1client_rs.Wire.Binrw.{Binrw}
use smb1client_rs.Wire.Netbios.{
  HeaderBytes, session_message, encode_header, decode_header, max_message_len,
}
use smb1client_rs.Wire.Netbios.Framing.{AreBytes, encode_header_cases}
use smb1client_rs.Wire.Offsets.{ByteArea, offset, align_to, block_at}
use smb1client_rs.Wire.Offsets.Area.{Padded, padding, align_to_cases}
use smb1client_rs.Wire.Offsets.Blocks.{block_at_cases}
use smb1client_rs.Wire.Message.{
  Message, parse, message, body, frame, words, byte_area_offset, byte_area_to_end,
}
use smb1client_rs.Wire.Message.RoundTrip.{IsHeader, IsCodec, Parsed, parse-message, frame_lem}
use smb1client_rs.Wire.Message.Shape.{parse-bounds}
use mathlib.Core.List.{append_assoc}

-- The fields before the security features, and those after them.
abbrev front : SmbHeader → List ℕ
front h =
    0xFF
    ∷ 0x53
    ∷ 0x4D
    ∷ 0x42
    ∷ h.command
    ∷ h.status % 2 ^ 8
    ∷ h.status / 2 ^ 8 % 2 ^ 8
    ∷ h.status / 2 ^ 16 % 2 ^ 8
    ∷ h.status / 2 ^ 24 % 2 ^ 8
    ∷ h.flags
    ∷ (to_le_bytes h.flags2 ++ to_le_bytes h.pid_high)

abbrev back : SmbHeader → List ℕ
back h =
    to_le_bytes h.reserved
    ++ to_le_bytes h.tid
    ++ to_le_bytes h.pid_low
    ++ to_le_bytes h.uid
    ++ to_le_bytes h.mid

-- A header from the fields after the security features.
abbrev read_back :
    (command status flags flags2 pid_high : ℕ) (security_features : List ℕ)
    → List ℕ
    → Result WireError SmbHeader
read_back command status flags flags2 pid_high security_features
      (r₀ ∷ r₁ ∷ t₀ ∷ t₁ ∷ p₀ ∷ p₁ ∷ u₀ ∷ u₁ ∷ m₀ ∷ m₁ ∷ rest) =
    ok (record {
      command = command;
      status = status;
      flags = flags;
      flags2 = flags2;
      pid_high = pid_high;
      security_features = security_features;
      reserved = from_le_bytes r₀ r₁;
      tid = from_le_bytes t₀ t₁;
      pid_low = from_le_bytes p₀ p₁;
      uid = from_le_bytes u₀ u₁;
      mid = from_le_bytes m₀ m₁;
    })
read_back command status flags flags2 pid_high security_features short = err malformed

abbrev read_front : List ℕ → Result WireError SmbHeader
read_front (x₀ ∷ x₁ ∷ x₂ ∷ x₃ ∷ c ∷ s₀ ∷ s₁ ∷ s₂ ∷ s₃ ∷ f ∷ g₀ ∷ g₁ ∷ h₀ ∷ h₁ ∷ rest) =
    read_back c (s₀ + s₁ * 2 ^ 8 + s₂ * 2 ^ 16 + s₃ * 2 ^ 24) f (from_le_bytes g₀ g₁)
      (from_le_bytes h₀ h₁) (take 8 rest) (drop 8 rest)
read_front short = err malformed

abbrev le_codec : Binrw
le_codec = record {
  read_header = read_front;
  write_header = λ h. ok (front h ++ h.security_features ++ back h);
  read_response_words = λ bytes. err malformed;
}

status_bytes :
    (n : ℕ)
    → n < 2 ^ 32
    → n % 2 ^ 8
        + n / 2 ^ 8 % 2 ^ 8 * 2 ^ 8
        + n / 2 ^ 16 % 2 ^ 8 * 2 ^ 16
        + n / 2 ^ 24 % 2 ^ 8 * 2 ^ 24
      ≡ n
status_bytes n h = omega (arith, h)

word_bytes : (n : ℕ) → n < 2 ^ 16 → from_le_bytes (n % 2 ^ 8) (n / 2 ^ 8 % 2 ^ 8) ≡ n
word_bytes n h = omega (arith, h)

le_codec_reads :
    (h : SmbHeader) (rest : List ℕ)
    → IsHeader h
    → read_front ((front h ++ h.security_features ++ back h) ++ rest) ≡ ok h
le_codec_reads h rest f =
    let tail = append_assoc h.security_features (back h) rest in
    let eight = f.security_features_length in
    rw
      (
        tail,
        take-append 8 h.security_features (back h ++ rest) eight,
        drop-append 8 h.security_features (back h ++ rest) eight,
      )
      (rw
        (
          status_bytes h.status f.status_fits,
          word_bytes h.flags2 f.flags2_fits,
          word_bytes h.pid_high f.pid_high_fits,
          word_bytes h.reserved f.reserved_fits,
          word_bytes h.tid f.tid_fits,
          word_bytes h.pid_low f.pid_low_fits,
          word_bytes h.uid f.uid_fits,
          word_bytes h.mid f.mid_fits,
        )
        refl)

le_codec-IsCodec : IsCodec le_codec
le_codec-IsCodec = record {
  writes = λ h f. (
    _,
    refl,
    omega (arith, length-append h.security_features (back h), f.security_features_length),
  );
  reads = λ h out rest f e.
      ap (λ b. read_front (b ++ rest)) (sym (ok-injective e)) ∙ le_codec_reads h rest f;
}

echo-IsHeader : IsHeader (request 0x2B)
echo-IsHeader = record {
  command_fits = omega arith;
  status_fits = omega arith;
  flags_fits = omega arith;
  flags2_fits = omega arith;
  pid_high_fits = omega arith;
  security_features_length = refl;
  reserved_fits = omega arith;
  tid_fits = omega arith;
  pid_low_fits = omega arith;
  uid_fits = omega arith;
  mid_fits = omega arith;
}

-- An SMB_COM_ECHO request of one word.
abbrev echo_words : List ℕ
echo_words = 0x34 ∷ 0x12 ∷ []

abbrev echo_area : List ℕ
echo_area = 0x61 ∷ 0x62 ∷ 0x63 ∷ []

abbrev echo_bytes : List ℕ
echo_bytes =
    (front (request 0x2B) ++ (request 0x2B).security_features ++ back (request 0x2B))
    ++ (1 ∷ 0x34 ∷ 0x12 ∷ 3 ∷ 0 ∷ 0x61 ∷ 0x62 ∷ 0x63 ∷ [])

parse-message_example :
    (bytes : List ℕ) × (m : Message) × (message le_codec (request 0x2B) (body echo_words echo_area)
      ≡ ok bytes)
    × (parse le_codec bytes ≡ ok m)
    × Parsed (request 0x2B) echo_words echo_area m
parse-message_example =
    parse-message le_codec (request 0x2B) echo_words echo_area le_codec-IsCodec echo-IsHeader refl
      (omega arith)

frame_lem_example :
    (b₀ b₁ b₂ b₃ : ℕ) × (frame echo_area ≡ ok (b₀ ∷ b₁ ∷ b₂ ∷ b₃ ∷ echo_area))
    × (decode_header (b₀, b₁, b₂, b₃) ≡ ok (session_message, 3))
frame_lem_example = frame_lem echo_area (omega arith)

abbrev echo_message : Message
echo_message = record { header = request 0x2B; bytes = echo_bytes; word_count = 1; byte_count = 3 }

echo_parsed : parse le_codec echo_bytes ≡ ok echo_message
unfolding parse
echo_parsed = refl

parse-bounds_example :
    (echo_bytes ≡ echo_bytes)
    × (length (words echo_message) ≡ 2)
    × (byte_area_offset echo_message ≤ length echo_bytes)
    × (length (byte_area_to_end echo_message) + byte_area_offset echo_message ≡ length echo_bytes)
parse-bounds_example = parse-bounds le_codec echo_bytes echo_parsed

encode_header_cases_example :
    ((0x12345 ≤ max_message_len)
      × ((h : HeaderBytes) × (encode_header 0x12345 ≡ ok h)
          × AreBytes h
          × (decode_header h ≡ ok (session_message, 0x12345))))
    ⊎ ((max_message_len < 0x12345) × (encode_header 0x12345 ≡ err (message_too_long 0x12345)))
encode_header_cases_example = encode_header_cases 0x12345

abbrev long_header : HeaderBytes
long_header = (0, 1, 2, 3)

long_header_read : decode_header long_header ≡ ok (session_message, 0x1_0203)
unfolding decode_header
long_header_read = refl

abbrev odd_area : ByteArea
odd_area = record { start = 33; bytes = 7 ∷ [] }

align_to_cases_example :
    ((k : ℕ) × (4 ≡ 2 ^ k)
      × (b : ByteArea) × (align_to odd_area 4 ≡ some b)
      × Padded odd_area 4 (padding 4 (offset odd_area)) b)
    ⊎ (((k : ℕ) → ¬ (4 ≡ 2 ^ k)) × (align_to odd_area 4 ≡ none))
align_to_cases_example = align_to_cases odd_area 4

-- A debug build does not pad to three.
three_panics : align_to odd_area 3 ≡ none
unfolding align_to
three_panics = refl

block_at_cases_example :
    ((1 + 2 ≤ length echo_area)
      × ((block : List ℕ) × (block_at echo_area "DataOffset" 1 2 ≡ ok block)
          × (length block ≡ 2)
          × ((i : ℕ) → i < 2 → get_elem? block i ≡ get_elem? echo_area (1 + i))))
    ⊎ ((length echo_area < 1 + 2)
        × (block_at echo_area "DataOffset" 1 2 ≡ err (block_out_of_range "DataOffset" 1 2 3)))
block_at_cases_example = block_at_cases echo_area "DataOffset" 1 2
