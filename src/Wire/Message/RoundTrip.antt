-- ===== src/Wire/Message/RoundTrip.antt =====
-- A message that this crate assembles parses back to its parts.
use smb1client_rs.Base.{
  drop-append, take-append, ℕ, zero, suc, ◌+◌, ◌-◌, ◌*◌, ◌/◌, ◌%◌, ◌^◌, ◌≤◌, ◌<◌, ◌≡◌, refl, ◌∙◌,
  sym, ap, List, [], ◌∷◌, ◌++◌, length, take, drop, get_elem?, get_range, some, arith, ok,
  length-append, as_u8, from_le_bytes,
}
use smb1client_rs.Wire.Header.{SmbHeader, header_len}
use smb1client_rs.Wire.Binrw.{Binrw}
use smb1client_rs.Wire.Netbios
use smb1client_rs.Wire.Netbios.Framing.{decode_header-encode_header}
use smb1client_rs.Wire.Message.{
  Message, u16_at, u16_of, parse, words, byte_area_to_end, frame, body, message,
}
use mathlib.Core.List.{append_assoc}

-- A header whose fields fit their widths.
pub record IsHeader (h : SmbHeader) : Type 0 where
  pub command_fits : h.command < 2 ^ 8
  pub status_fits : h.status < 2 ^ 32
  pub flags_fits : h.flags < 2 ^ 8
  pub flags2_fits : h.flags2 < 2 ^ 16
  pub pid_high_fits : h.pid_high < 2 ^ 16
  pub security_features_length : length h.security_features ≡ 8
  pub reserved_fits : h.reserved < 2 ^ 16
  pub tid_fits : h.tid < 2 ^ 16
  pub pid_low_fits : h.pid_low < 2 ^ 16
  pub uid_fits : h.uid < 2 ^ 16
  pub mid_fits : h.mid < 2 ^ 16

-- What the code relies on of binrw's derive: the header is written in 32 bytes, and is read back
-- from the front of any message that begins with them.
pub record IsCodec (binrw : Binrw) : Type 0 where
  pub writes :
      (h : SmbHeader)
      → IsHeader h
      → (out : List ℕ) × (binrw.write_header h ≡ ok out) × (length out ≡ header_len)
  pub reads :
      (h : SmbHeader) (out rest : List ℕ)
      → IsHeader h
      → binrw.write_header h ≡ ok out
      → binrw.read_header (out ++ rest) ≡ ok h

get_elem?-append {ℓ} :
    {A : Type ℓ} (n : ℕ) (xs : List A) (y : A) (ys : List A)
    → length xs ≡ n
    → get_elem? (xs ++ y ∷ ys) n ≡ some y
get_elem?-append zero [] y ys h = refl
get_elem?-append zero (x ∷ xs) y ys h = absurd (omega arith)
get_elem?-append (suc n) [] y ys h = absurd (omega arith)
get_elem?-append (suc n) (x ∷ xs) y ys h = get_elem?-append n xs y ys (omega arith)

get_range-append :
    (n : ℕ) (xs : List ℕ) (lo hi : ℕ) (ys : List ℕ)
    → length xs ≡ n
    → get_range n (n + 2) (xs ++ lo ∷ hi ∷ ys) ≡ some (lo ∷ hi ∷ [])
get_range-append n xs lo hi ys h =
    let two : n + 2 - n ≡ 2 = omega arith in
    let slice : take (n + 2 - n) (drop n (xs ++ lo ∷ hi ∷ ys)) ≡ lo ∷ hi ∷ [] =
      rw (two, drop-append n xs (lo ∷ hi ∷ ys) h) in
    ground (arith, slice, length-append xs (lo ∷ hi ∷ ys))

u16_at-append :
    (n : ℕ) (xs : List ℕ) (lo hi : ℕ) (ys : List ℕ)
    → length xs ≡ n
    → u16_at n (xs ++ lo ∷ hi ∷ ys) ≡ some (from_le_bytes lo hi)
u16_at-append n xs lo hi ys h = ap u16_of (get_range-append n xs lo hi ys h)

-- The number of words is what the words occupy, and the count of the byte area is cut to 16 bits.
pub record Parsed (h : SmbHeader) (ws area : List ℕ) (m : Message) : Type 0 where
  pub header_eq : m.header ≡ h
  pub word_count_eq : m.word_count ≡ length ws / 2
  pub byte_count_eq : m.byte_count ≡ length area % 2 ^ 16
  pub words_eq : words m ≡ ws
  pub area_eq : byte_area_to_end m ≡ area

-- The bytes of a message, of its header, `WordCount`, words, `ByteCount` and byte area.
layout : List ℕ → ℕ → List ℕ → ℕ → ℕ → List ℕ → List ℕ
layout out count ws lo hi area = out ++ (count ∷ (ws ++ (lo ∷ hi ∷ area)))

module _ (out : List ℕ) (count : ℕ) (ws : List ℕ) (lo hi : ℕ) (area : List ℕ)
    (o : length out ≡ header_len) (n : length ws ≡ count * 2) where
  count-layout : get_elem? (layout out count ws lo hi area) header_len ≡ some count
  unfolding layout
  count-layout = get_elem?-append header_len out count (ws ++ (lo ∷ hi ∷ area)) o

  words-layout : take (count * 2) (drop (header_len + 1) (layout out count ws lo hi area)) ≡ ws
  unfolding layout
  words-layout =
      let front = append_assoc out (count ∷ []) (ws ++ (lo ∷ hi ∷ area)) in
      let size = length-append out (count ∷ []) in
      rw (
        ← front,
        drop-append (header_len + 1) (out ++ count ∷ []) (ws ++ (lo ∷ hi ∷ area)) (omega arith),
        take-append (count * 2) ws (lo ∷ hi ∷ area) n,
      )

  counts-layout :
      u16_at (header_len + 1 + count * 2) (layout out count ws lo hi area)
      ≡ some (from_le_bytes lo hi)
  unfolding layout
  counts-layout =
      let front = append_assoc out (count ∷ ws) (lo ∷ hi ∷ area) in
      let size = length-append out (count ∷ ws) in
      ap (u16_at (header_len + 1 + count * 2)) (sym front)
      ∙ u16_at-append (header_len + 1 + count * 2) (out ++ count ∷ ws) lo hi area (omega arith)

  area-layout : drop (header_len + 1 + count * 2 + 2) (layout out count ws lo hi area) ≡ area
  unfolding layout
  area-layout =
      let end = append_assoc ws (lo ∷ hi ∷ []) area in
      let front = append_assoc out (count ∷ (ws ++ (lo ∷ hi ∷ []))) area in
      let whole : out ++ (count ∷ (ws ++ (lo ∷ hi ∷ area)))
          ≡ (out ++ (count ∷ (ws ++ (lo ∷ hi ∷ [])))) ++ area =
        ap (λ t. out ++ (count ∷ t)) (sym end) ∙ sym front in
      let size = length-append out (count ∷ (ws ++ (lo ∷ hi ∷ []))) in
      let inner = length-append ws (lo ∷ hi ∷ []) in
      ap (drop (header_len + 1 + count * 2 + 2)) whole
      ∙ drop-append (header_len + 1 + count * 2 + 2) (out ++ (count ∷ (ws ++ (lo ∷ hi ∷ [])))) area
          (omega arith)

  parse-layout :
      (binrw : Binrw) (h : SmbHeader)
      → IsCodec binrw
      → IsHeader h
      → binrw.write_header h ≡ ok out
      → parse binrw (layout out count ws lo hi area)
        ≡ ok (record {
          header = h;
          bytes = layout out count ws lo hi area;
          word_count = count;
          byte_count = from_le_bytes lo hi;
        })
  unfolding parse
  parse-layout binrw h c f e =
      let header : binrw.read_header (layout out count ws lo hi area) ≡ ok h =
        unfold layout in c.reads h out (count ∷ (ws ++ (lo ∷ hi ∷ area))) f e in
      rw (header, count-layout, counts-layout)

message-layout :
    (binrw : Binrw) (h : SmbHeader) (out ws area : List ℕ)
    → binrw.write_header h ≡ ok out
    → message binrw h (body ws area)
      ≡ ok (
          layout out
            (as_u8 (length ws / 2))
            ws
            (length area % 2 ^ 16 % 2 ^ 8)
            (length area % 2 ^ 16 / 2 ^ 8 % 2 ^ 8)
            area)
unfolding message body layout
message-layout binrw h out ws area e = rw e

layout-Parsed :
    (h : SmbHeader) (out : List ℕ) (count : ℕ) (ws : List ℕ) (lo hi : ℕ) (area : List ℕ)
    → length out ≡ header_len
    → length ws ≡ count * 2
    → from_le_bytes lo hi ≡ length area % 2 ^ 16
    → Parsed h ws area (record {
      header = h;
      bytes = layout out count ws lo hi area;
      word_count = count;
      byte_count = from_le_bytes lo hi;
    })
unfolding words byte_area_to_end
layout-Parsed h out count ws lo hi area o n b = record {
  header_eq = refl;
  word_count_eq = omega arith;
  byte_count_eq = b;
  words_eq = words-layout out count ws lo hi area o n;
  area_eq = area-layout out count ws lo hi area o n;
}

-- If binrw's derive keeps what it documents, then a message put together from a header whose
-- fields fit their widths, a block of whole words, at most 255 of them, and a byte area of any length parses back to that header, those
-- words and that byte area, and its `ByteCount` is the length of the byte area cut to 16 bits.
pub parse-message :
    (binrw : Binrw) (h : SmbHeader) (ws area : List ℕ)
    → IsCodec binrw
    → IsHeader h
    → length ws % 2 ≡ 0
    → length ws < 2 ^ 9
    → (bytes : List ℕ) × (m : Message) × (message binrw h (body ws area) ≡ ok bytes)
      × (parse binrw bytes ≡ ok m)
      × Parsed h ws area m
parse-message binrw h ws area c f even l =
    let (out, e, o) = c.writes h f in
    let n : length ws ≡ as_u8 (length ws / 2) * 2 = omega arith in
    (
      layout out (as_u8 (length ws / 2)) ws (length area % 2 ^ 16 % 2 ^ 8)
          (length area % 2 ^ 16 / 2 ^ 8 % 2 ^ 8) area,
      record {
        header = h;
        bytes =
            layout out (as_u8 (length ws / 2)) ws (length area % 2 ^ 16 % 2 ^ 8)
              (length area % 2 ^ 16 / 2 ^ 8 % 2 ^ 8) area;
        word_count = as_u8 (length ws / 2);
        byte_count =
            from_le_bytes (length area % 2 ^ 16 % 2 ^ 8) (length area % 2 ^ 16 / 2 ^ 8 % 2 ^ 8);
      },
      message-layout binrw h out ws area e,
      parse-layout out _ ws _ _ area o n binrw h c f e,
      layout-Parsed h out _ ws _ _ area o n (omega arith),
    )

-- A message of at most 131,071 bytes is framed by four bytes before it, which announce a session
-- message of its length.
pub frame_lem :
    (bytes : List ℕ)
    → length bytes ≤ Netbios.max_message_len
    → (b₀ b₁ b₂ b₃ : ℕ) × (frame bytes ≡ ok (b₀ ∷ b₁ ∷ b₂ ∷ b₃ ∷ bytes))
      × (Netbios.decode_header (b₀, b₁, b₂, b₃) ≡ ok (Netbios.session_message, length bytes))
unfolding frame
frame_lem bytes h =
    let ((b₀, b₁, b₂, b₃), e, b, d) = decode_header-encode_header (length bytes) h in
    (b₀, b₁, b₂, b₃, rw e, d)
