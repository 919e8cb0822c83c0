-- ===== src/Wire/Message/Shape.antt =====
-- What `parse` guarantees: the later accessors of a message read inside it.
use smb1client_rs.Base.{
  ℕ, ◌+◌, ◌*◌, ◌≤◌, ◌≡◌, refl, ap, List, length, drop, get_elem?, Option, none, some, arith, ok,
  ok_or, >>=-eq-ok, ok-injective, length-take, length-drop,
}
use smb1client_rs.Wire.Error.{truncated}
use smb1client_rs.Wire.Header.{SmbHeader, header_len}
use smb1client_rs.Wire.Binrw.{Binrw}
use smb1client_rs.Wire.Message.{Message, u16_at, parse, words, byte_area_offset, byte_area_to_end}

-- A message whose word block and `ByteCount` lie within its bytes.
pub record IsWhole (bytes : List ℕ) (m : Message) : Type 0 where
  pub bytes_eq : m.bytes ≡ bytes
  pub word_count_eq : get_elem? bytes header_len ≡ some m.word_count
  pub byte_count_eq : u16_at (header_len + 1 + m.word_count * 2) bytes ≡ some m.byte_count

ok_or-eq-ok : {A E : Type 0} (o : Option A) (e : E) {a : A} → ok_or o e ≡ ok a → o ≡ some a
ok_or-eq-ok none e h = cc
ok_or-eq-ok (some a) e h = ap some (ok-injective h)

parse-IsWhole :
    (binrw : Binrw) (bytes : List ℕ) {m : Message} → parse binrw bytes ≡ ok m → IsWhole bytes m
unfolding parse
parse-IsWhole binrw bytes {m} h =
    let (header, e₁, k₁) = >>=-eq-ok (binrw.read_header bytes) _ h in
    let (w, e₂, k₂) =
      >>=-eq-ok
        (ok_or (get_elem? bytes header_len) (truncated "WordCount" (header_len + 1) (length bytes)))
        _ k₁ in
    let (b, e₃, k₃) =
      >>=-eq-ok
        (ok_or (u16_at (header_len + 1 + w * 2) bytes)
          (truncated "words" (header_len + 1 + w * 2 + 2) (length bytes)))
        _ k₂ in
    rw (ok-injective k₃) at (
      whole header w b (ok_or-eq-ok (get_elem? bytes header_len) _ e₂)
        (ok_or-eq-ok (u16_at (header_len + 1 + w * 2) bytes) _ e₃))
  where
    whole :
        (header : SmbHeader) (w b : ℕ)
        → get_elem? bytes header_len ≡ some w
        → u16_at (header_len + 1 + w * 2) bytes ≡ some b
        → IsWhole bytes (record { header = header; bytes = bytes; word_count = w; byte_count = b })
    whole header w b p q = record { bytes_eq = refl; word_count_eq = p; byte_count_eq = q }

u16_at-bound : (at n : ℕ) (bytes : List ℕ) → u16_at at bytes ≡ some n → at + 2 ≤ length bytes
u16_at-bound at n bytes h = ground arith

-- Of a parsed message, the word block has the declared number of words, the byte area begins within
-- the message, and both are read from the bytes that were parsed.
pub parse-bounds :
    (binrw : Binrw) (bytes : List ℕ) {m : Message}
    → parse binrw bytes ≡ ok m
    → (m.bytes ≡ bytes)
      × (length (words m) ≡ m.word_count * 2)
      × (byte_area_offset m ≤ length m.bytes)
      × (length (byte_area_to_end m) + byte_area_offset m ≡ length m.bytes)
unfolding words byte_area_to_end
parse-bounds binrw bytes {m} h =
    let w = parse-IsWhole binrw bytes h in
    let bound =
      u16_at-bound (header_len + 1 + m.word_count * 2) m.byte_count bytes w.byte_count_eq in
    let size : length m.bytes ≡ length bytes = ap length w.bytes_eq in
    (
      w.bytes_eq,
      omega (
        arith,
        length-take (m.word_count * 2) (drop (header_len + 1) m.bytes),
        length-drop (header_len + 1) m.bytes,
      ),
      omega arith,
      omega (arith, length-drop (byte_area_offset m) m.bytes),
    )
