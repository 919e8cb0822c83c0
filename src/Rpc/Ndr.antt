-- ===== src/Rpc/Ndr.antt =====
-- src/rpc/ndr.rs: the reader and the writer of a stub. A `String` is the list of its code points, and the
-- name of the field that an error carries is not kept.
pub mod Utf16
pub mod RoundTrip
mod Tests
use smb1client_rs.Base.{
  ℕ, zero, suc, ◌+◌, ◌-◌, ◌*◌, ◌/◌, ◌%◌, ◌^◌, Bool, true, false, ◌==◌, ◌&&◌, ◌||◌, not, leb, ltb,
  if◌then◌else◌, Option, none, some, List, [], ◌∷◌, ◌++◌, length, replicate, is_empty, get_range,
  get_or, to_le_bytes, from_le_bytes, Result, ok, err, ok_or, ◌>>=◌,
}
use smb1client_rs.Rpc.Pdu.{to_le_bytes_u32, from_le_bytes_u32, next_multiple_of_4}

pub data NdrError : Type 0 where
  truncated : (at needed length : ℕ) → NdrError
  inconsistent_string : (at maximum first actual : ℕ) → NdrError
  invalid_utf16 : (at : ℕ) → NdrError

pub record Reader : Type 0 where
  pub stub : List ℕ
  pub at : ℕ

-- A method that reads returns what it read, and the reader after it.
abbrev pub Read : Type 0 → Type 0
Read A = Result NdrError (A × Reader)

-- `Reader::new`
abbrev pub new : List ℕ → Reader
new stub = record { stub = stub; at = 0 }

-- `Reader::align`
abbrev pub align : Reader → Reader
align r = record r { at = next_multiple_of_4 r.at }

-- `Reader::take`; no stub is so long that the end overflows
unfoldable pub take_bytes : Reader → ℕ → Read (List ℕ)
take_bytes r count = elim (get_range r.at (r.at + count) r.stub) [
  | none ↦ err (truncated r.at count (length r.stub))
  | some slice ↦ ok (slice, record r { at = r.at + count })
]

-- `Reader::u32`
unfoldable pub read_u32 : Reader → Read ℕ
unfolding take_bytes
read_u32 r = do
  raw ← take_bytes (align r) 4
  ok (
    from_le_bytes_u32 (get_or raw.0 0 0) (get_or raw.0 1 0) (get_or raw.0 2 0) (get_or raw.0 3 0),
    raw.1,
  )

unfoldable pub is_null_pointer : Reader → Read Bool
unfolding read_u32
is_null_pointer r = do id ← read_u32 r; ok (id.0 == 0, id.1)

-- `bytes.as_chunks::<2>().0`, each read as a unit
abbrev pub units_of : List ℕ → List ℕ
units_of (lo ∷ hi ∷ rest) = from_le_bytes lo hi ∷ units_of rest
units_of _ = []

-- `units.strip_suffix(&[0]).unwrap_or(&units)`
unfoldable pub strip_terminator : List ℕ → List ℕ
strip_terminator [] = []
strip_terminator (u ∷ units) =
    let rest = strip_terminator units in
    if is_empty units then (if u == 0 then [] else u ∷ []) else u ∷ rest

abbrev pub is_leading : ℕ → Bool
is_leading u = leb 0xD800 u && ltb u 0xDC00

abbrev pub is_trailing : ℕ → Bool
is_trailing u = leb 0xDC00 u && ltb u 0xE000

abbrev pub with_char : ℕ → Option (List ℕ) → Option (List ℕ)
with_char c none = none
with_char c (some text) = some (c ∷ text)

-- `String::from_utf16`, `none` at a surrogate without its other half
unfoldable pub from_utf16 : List ℕ → Option (List ℕ)
from_utf16 [] = some []
from_utf16 (u ∷ []) = if is_leading u || is_trailing u then none else some (u ∷ [])
from_utf16 (u ∷ v ∷ units) =
    let pair = with_char (0x10000 + (u - 0xD800) * 0x400 + (v - 0xDC00)) (from_utf16 units) in
    let single = with_char u (from_utf16 (v ∷ units)) in
    if is_leading u
    then (if is_trailing v then pair else none)
    else if is_trailing u
    then none
    else single

-- The last steps of `conformant_varying_string`, from its characters on.
unfoldable pub read_characters : Reader → (actual : ℕ) → Read (List ℕ)
unfolding take_bytes strip_terminator from_utf16
read_characters r actual = do
  bytes ← take_bytes r (actual * 2)
  text ← ok_or (from_utf16 (strip_terminator (units_of bytes.0))) (invalid_utf16 r.at)
  ok (text, bytes.1)

-- `Reader::conformant_varying_string`, where a `usize` has 64 bits
unfoldable pub read_string : Reader → Read (List ℕ)
unfolding read_u32 read_characters
read_string r = do
  maximum ← read_u32 r
  first ← read_u32 maximum.1
  actual ← read_u32 first.1
  if not (first.0 == 0) || ltb maximum.0 actual.0
      then err (inconsistent_string (next_multiple_of_4 r.at) maximum.0 first.0 actual.0)
      else read_characters actual.1 actual.0

pub record Writer : Type 0 where
  pub stub : List ℕ

-- `Writer::align`
abbrev pub padded : List ℕ → List ℕ
padded stub = stub ++ replicate (next_multiple_of_4 (length stub) - length stub) 0

-- `Writer::u32`
abbrev pub write_u32 : Writer → ℕ → Writer
write_u32 w value = record { stub = padded w.stub ++ to_le_bytes_u32 value }

-- `str::encode_utf16`, of one code point
abbrev pub utf16_of : ℕ → List ℕ
utf16_of c =
    if ltb c 0x10000
    then c ∷ []
    else (0xD800 + (c - 0x10000) / 0x400) ∷ (0xDC00 + (c - 0x10000) % 0x400) ∷ []

unfoldable pub encode_utf16 : List ℕ → List ℕ
encode_utf16 [] = []
encode_utf16 (c ∷ text) = utf16_of c ++ encode_utf16 text

abbrev pub bytes_of : List ℕ → List ℕ
bytes_of [] = []
bytes_of (u ∷ units) = to_le_bytes u ++ bytes_of units

-- `Writer::conformant_varying_string`
unfoldable pub write_string : Writer → List ℕ → Writer
unfolding encode_utf16
write_string w text =
    let units = encode_utf16 text ++ 0 ∷ [] in
    let count = length units % 2 ^ 32 in
    let counted = write_u32 (write_u32 (write_u32 w count) 0) count in
    record { stub = padded (counted.stub ++ bytes_of units) }
