-- ===== src/Rpc/Pdu/RoundTrip.antt =====
-- A unit that the client writes is cut off whole and its header is read back.
use smb1client_rs.Base.{
  ℕ, ◌+◌, ◌/◌, ◌%◌, ◌^◌, ◌≤◌, ◌<◌, ◌≡◌, refl, ◌∙◌, false, ltb, some, List, ◌++◌, length,
  length-append, take-append, drop-append, arith, ok,
}
use smb1client_rs.Rpc.Pdu.{PduStream, next, parse, pdu, header_len, from_le_bytes_u32}
use smb1client_rs.Rpc.Pdu.Cut.{declared, declared-append, next_takes}

pub u32_bytes :
    (n : ℕ)
    → n < 2 ^ 32
    → from_le_bytes_u32 (n % 2 ^ 8) (n / 2 ^ 8 % 2 ^ 8) (n / 2 ^ 16 % 2 ^ 8) (n / 2 ^ 24 % 2 ^ 8)
      ≡ n
u32_bytes n h = omega (arith, h)

-- A unit that declares its own length is cut off whole.
pub next-append :
    (unit rest : List ℕ)
    → header_len ≤ length unit
    → declared unit ≡ length unit
    → next (record { pending = unit ++ rest }) ≡ ok (some unit, record { pending = rest })
next-append unit rest h e =
    let s : PduStream = record { pending = unit ++ rest } in
    let n : declared (unit ++ rest) ≡ length unit = declared-append unit rest h ∙ e in
    next_takes s (omega (arith, n, h)) (omega (arith, n, length-append unit rest))
    ∙ rw (n, take-append (length unit) unit rest refl, drop-append (length unit) unit rest refl)
        refl

length-pdu :
    (ptype call_id : ℕ) (body : List ℕ) → length (pdu ptype call_id body) ≡ header_len + length body
unfolding pdu
length-pdu ptype call_id body = omega arith

declared-pdu :
    (ptype call_id : ℕ) (body : List ℕ)
    → length body + header_len < 2 ^ 16
    → declared (pdu ptype call_id body) ≡ length (pdu ptype call_id body)
unfolding pdu
declared-pdu ptype call_id body h = omega (arith, h)

parse-pdu :
    (ptype call_id : ℕ) (body : List ℕ)
    → call_id < 2 ^ 32
    → parse (pdu ptype call_id body) ≡ ok (record { ptype = ptype; flags = 3; call_id = call_id })
unfolding pdu parse
parse-pdu ptype call_id body h = rw (parse, long, u32_bytes call_id h) refl
  where
    long : ltb (length (pdu ptype call_id body)) header_len ≡ false
    long = ground (arith, length-pdu ptype call_id body)

-- A unit with a call id of 32 bits and a body that the length field can count is cut off whole, whatever
-- comes after it, and its header reads back as it was written, as both first and last of its reply.
pub next-pdu :
    (ptype call_id : ℕ) (body rest : List ℕ)
    → call_id < 2 ^ 32
    → length body + header_len < 2 ^ 16
    → (next (record { pending = pdu ptype call_id body ++ rest })
        ≡ ok (some (pdu ptype call_id body), record { pending = rest }))
      × (parse (pdu ptype call_id body)
          ≡ ok (record { ptype = ptype; flags = 3; call_id = call_id }))
next-pdu ptype call_id body rest h k = (
  next-append (pdu ptype call_id body) rest (omega (arith, length-pdu ptype call_id body))
      (declared-pdu ptype call_id body k),
  parse-pdu ptype call_id body h,
)
