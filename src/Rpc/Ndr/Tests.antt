-- ===== src/Rpc/Ndr/Tests.antt =====
-- The theorem on NDR strings at a stub with three bytes on it, and a string of an `a` and a code point
-- beyond 16 bits.
use smb1client_rs.Base.{
  ℕ, ◌+◌, ◌<◌, ◌^◌, ◌≡◌, refl, inl, inr, List, [], ◌∷◌, ◌++◌, length, arith, ok,
}
use smb1client_rs.Rpc.Ndr.{Reader, Writer, align, read_string, write_string, encode_utf16}
use smb1client_rs.Rpc.Ndr.Utf16.{AreScalars}
use smb1client_rs.Rpc.Ndr.RoundTrip.{read_string-write_string}

abbrev three_bytes : Writer
three_bytes = record { stub = 1 ∷ 2 ∷ 3 ∷ [] }

abbrev text : List ℕ
text = 0x61 ∷ 0x1F600 ∷ []

text-AreScalars : AreScalars text
text-AreScalars = (inl (omega arith), (inr (omega arith, omega arith), tt))

text_encoded : encode_utf16 text ≡ 0x61 ∷ 0xD83D ∷ 0xDE00 ∷ []
unfolding encode_utf16
text_encoded = refl

text_short : length (encode_utf16 text) + 1 < 2 ^ 32
text_short = rw text_encoded (omega arith)

read_string-write_string_example :
    (r : Reader) × (read_string
        (record { stub = (write_string three_bytes text).stub ++ (9 ∷ []); at = 3 })
      ≡ ok (text, r))
    × (r.stub ≡ (write_string three_bytes text).stub ++ (9 ∷ []))
    × ((align r).at ≡ length (write_string three_bytes text).stub)
read_string-write_string_example =
    read_string-write_string three_bytes text (9 ∷ []) text-AreScalars text_short
