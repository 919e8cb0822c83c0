-- ===== src/Rpc/Ndr/RoundTrip.antt =====
-- What the writer puts on a stub is read back from where it stands.
use smb1client_rs.Base.{
  ℕ, ◌+◌, ◌-◌, ◌*◌, ◌^◌, ◌<◌, ◌≡◌, refl, sym, ◌∙◌, ap, true, false, ◌&&◌, leb, ltb, some, List, [],
  ◌∷◌, ◌++◌, length, length-append, length-replicate, replicate, take-append, drop-append,
  get_range, arith, ok,
}
use smb1client_rs.Rpc.Pdu.{to_le_bytes_u32, next_multiple_of_4}
use smb1client_rs.Rpc.Pdu.RoundTrip.{u32_bytes}
use smb1client_rs.Rpc.Ndr.{
  Reader, Writer, align, take_bytes, read_u32, read_characters, read_string, padded, write_u32,
  write_string, encode_utf16, bytes_of,
}
use smb1client_rs.Rpc.Ndr.Utf16.{
  AreScalars, from_utf16-encode_utf16, strip_terminator-append, AreUnits-append, units_of-bytes_of,
  length-bytes_of, encode_utf16-AreUnits,
}
use mathlib.Core.List.{append_assoc}

pub length-padded : (stub : List ℕ) → length (padded stub) ≡ next_multiple_of_4 (length stub)
length-padded stub = omega (
  arith,
  length-append stub (replicate (next_multiple_of_4 (length stub) - length stub) 0),
  length-replicate {A = ℕ} (next_multiple_of_4 (length stub) - length stub) 0,
)

get_range-append :
    (front middle rest : List ℕ) (a b : ℕ)
    → length front ≡ a
    → a + length middle ≡ b
    → get_range a b (front ++ (middle ++ rest)) ≡ some middle
get_range-append front middle rest a b e f =
    rw
      (
        fits,
        drop-append a front (middle ++ rest) e,
        take-append (b - a) middle rest (omega (arith, f)),
      )
      refl
  where
    fits : (leb a b && leb b (length (front ++ (middle ++ rest)))) ≡ true
    fits = ground (arith, length-append front (middle ++ rest), length-append middle rest, e, f)

take_bytes_at :
    (stub front middle rest : List ℕ) (at n : ℕ)
    → stub ≡ front ++ (middle ++ rest)
    → length front ≡ at
    → length middle ≡ n
    → take_bytes (record { stub = stub; at = at }) n
      ≡ ok (middle, record { stub = stub; at = at + n })
unfolding take_bytes
take_bytes_at stub front middle rest at n s e f = rw (take_bytes, found) refl
  where
    found : get_range at (at + n) stub ≡ some middle
    found =
        ap (get_range at (at + n)) s
        ∙ get_range-append front middle rest at (at + n) e (omega (arith, f))

-- A 32-bit number is read from the next boundary after `at`.
read_u32_at :
    (stub front rest : List ℕ) (at value : ℕ)
    → stub ≡ front ++ (to_le_bytes_u32 value ++ rest)
    → length front ≡ next_multiple_of_4 at
    → value < 2 ^ 32
    → read_u32 (record { stub = stub; at = at })
      ≡ ok (value, record { stub = stub; at = next_multiple_of_4 at + 4 })
unfolding read_u32
read_u32_at stub front rest at value s e h =
    rw
      (
        read_u32,
        take_bytes_at stub front (to_le_bytes_u32 value) rest (next_multiple_of_4 at) 4 s e refl,
        u32_bytes value h,
      )
      refl

length-write_u32 :
    (w : Writer) (value : ℕ)
    → length (write_u32 w value).stub ≡ next_multiple_of_4 (length w.stub) + 4
length-write_u32 w value =
    omega (arith, length-append (padded w.stub) (to_le_bytes_u32 value), length-padded w.stub)

-- A 32-bit number that the writer puts on a stub is read back, from where the stub ended, whatever is
-- written behind it.
read_u32-write_u32 :
    (w : Writer) (value : ℕ) (rest : List ℕ)
    → value < 2 ^ 32
    → read_u32 (record { stub = (write_u32 w value).stub ++ rest; at = length w.stub })
      ≡ ok (
        value,
        record { stub = (write_u32 w value).stub ++ rest; at = length (write_u32 w value).stub },
      )
read_u32-write_u32 w value rest h =
    read_u32_at ((write_u32 w value).stub ++ rest) (padded w.stub) rest (length w.stub) value
      (append_assoc (padded w.stub) (to_le_bytes_u32 value) rest) (length-padded w.stub) h
    ∙ ap (λ n. ok (value, record { stub = (write_u32 w value).stub ++ rest; at = n }))
        (sym (length-write_u32 w value))

-- The same, where more than what was written just after is behind it.
read_then :
    (w : Writer) (value : ℕ) (stub rest : List ℕ)
    → stub ≡ (write_u32 w value).stub ++ rest
    → value < 2 ^ 32
    → read_u32 (record { stub = stub; at = length w.stub })
      ≡ ok (value, record { stub = stub; at = length (write_u32 w value).stub })
read_then w value stub rest e h = rw e (read_u32-write_u32 w value rest h)

read_characters_at :
    (stub front rest text : List ℕ) (at : ℕ)
    → AreScalars text
    → stub ≡ front ++ (bytes_of (encode_utf16 text ++ 0 ∷ []) ++ rest)
    → length front ≡ at
    → read_characters (record { stub = stub; at = at }) (length (encode_utf16 text ++ 0 ∷ []))
      ≡ ok (text, record { stub = stub; at = at + length (encode_utf16 text ++ 0 ∷ []) * 2 })
unfolding read_characters
read_characters_at stub front rest text at k s e =
    rw
      (
        read_characters,
        take_bytes_at stub front (bytes_of (encode_utf16 text ++ 0 ∷ [])) rest at
            (length (encode_utf16 text ++ 0 ∷ []) * 2) s e
            (length-bytes_of (encode_utf16 text ++ 0 ∷ [])),
        units_of-bytes_of (encode_utf16 text ++ 0 ∷ []) (
            AreUnits-append (encode_utf16 text) (0 ∷ []) (encode_utf16-AreUnits text k)
              (omega arith, tt)),
        strip_terminator-append (encode_utf16 text),
        from_utf16-encode_utf16 text k,
      )
      refl

-- What a number adds to a stub.
added : Writer → ℕ → List ℕ
added w value =
    replicate (next_multiple_of_4 (length w.stub) - length w.stub) 0 ++ to_le_bytes_u32 value

write_u32-added :
    (w : Writer) (value : ℕ) (rest : List ℕ)
    → (write_u32 w value).stub ++ rest ≡ w.stub ++ (added w value ++ rest)
unfolding added
write_u32-added w value rest =
    let zeroes : List ℕ = replicate (next_multiple_of_4 (length w.stub) - length w.stub) 0 in
    ap (λ t. t ++ rest) (append_assoc w.stub zeroes (to_le_bytes_u32 value))
    ∙ append_assoc w.stub (zeroes ++ to_le_bytes_u32 value) rest

-- The three counts of a string.
abbrev counted : Writer → ℕ → Writer
counted w n = write_u32 (write_u32 (write_u32 w n) 0) n

read_string_at :
    (w : Writer) (stub rest text : List ℕ)
    → AreScalars text
    → length (encode_utf16 text ++ 0 ∷ []) < 2 ^ 32
    → stub
      ≡ (counted w (length (encode_utf16 text ++ 0 ∷ []))).stub
        ++ (bytes_of (encode_utf16 text ++ 0 ∷ []) ++ rest)
    → read_string (record { stub = stub; at = length w.stub })
      ≡ ok (
        text,
        record {
          stub = stub;
          at =
              length (counted w (length (encode_utf16 text ++ 0 ∷ []))).stub
              + length (encode_utf16 text ++ 0 ∷ []) * 2;
        },
      )
unfolding read_string
read_string_at w stub rest text k h s =
    let n = length (encode_utf16 text ++ 0 ∷ []) in
    let body = bytes_of (encode_utf16 text ++ 0 ∷ []) ++ rest in
    let second = write_u32 w n in
    let third = write_u32 second 0 in
    let after_third : stub ≡ third.stub ++ (added third n ++ body) =
      s ∙ write_u32-added third n body in
    let after_second : stub ≡ second.stub ++ (added second 0 ++ (added third n ++ body)) =
      after_third ∙ write_u32-added second 0 (added third n ++ body) in
    rw
      (
        read_string,
        read_then w n stub (added second 0 ++ (added third n ++ body)) after_second h,
        read_then second 0 stub (added third n ++ body) after_third (omega arith),
        read_then third n stub body s h,
        not_more n,
      )
      (read_characters_at stub (counted w n).stub rest text (length (counted w n).stub) k s refl)
  where
    not_more : (n : ℕ) → ltb n n ≡ false
    not_more n = ground arith

write_string_lem :
    (w : Writer) (text : List ℕ)
    → length (encode_utf16 text ++ 0 ∷ []) < 2 ^ 32
    → (write_string w text).stub
      ≡ padded (
          (counted w (length (encode_utf16 text ++ 0 ∷ []))).stub
          ++ bytes_of (encode_utf16 text ++ 0 ∷ []))
unfolding write_string
write_string_lem w text h =
    ap (λ n. padded ((counted w n).stub ++ bytes_of (encode_utf16 text ++ 0 ∷ [])))
      (omega (arith, h))

-- A string of fewer than 2^32 units, its terminator counted, that the writer puts on a stub is read back
-- from where the stub ended, whatever is written behind it, and the next number is read where the next
-- would be written.
pub read_string-write_string :
    (w : Writer) (text rest : List ℕ)
    → AreScalars text
    → length (encode_utf16 text) + 1 < 2 ^ 32
    → (r : Reader) × (read_string
          (record { stub = (write_string w text).stub ++ rest; at = length w.stub })
        ≡ ok (text, r))
      × (r.stub ≡ (write_string w text).stub ++ rest)
      × ((align r).at ≡ length (write_string w text).stub)
read_string-write_string w text rest k h =
    let units = encode_utf16 text ++ 0 ∷ [] in
    let n = length units in
    let small : n < 2 ^ 32 = omega (arith, h, length-append (encode_utf16 text) (0 ∷ [])) in
    let front = (counted w n).stub in
    let whole = front ++ bytes_of units in
    let zeroes : List ℕ = replicate (next_multiple_of_4 (length whole) - length whole) 0 in
    let e : (write_string w text).stub ≡ padded whole = write_string_lem w text small in
    let stub = (write_string w text).stub ++ rest in
    let s : stub ≡ front ++ (bytes_of units ++ (zeroes ++ rest)) =
      ap (λ t. t ++ rest) e
      ∙ append_assoc whole zeroes rest
      ∙ append_assoc front (bytes_of units) (zeroes ++ rest) in
    (
      record { stub = stub; at = length front + n * 2 },
      read_string_at w stub (zeroes ++ rest) text k small s,
      refl,
      ap next_multiple_of_4
            (omega (arith, length-append front (bytes_of units), length-bytes_of units))
          ∙ sym (length-padded whole)
          ∙ ap length (sym e),
    )
