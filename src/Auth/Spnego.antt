-- ===== src/Auth/Spnego.antt =====
-- src/auth/spnego.rs: the SPNEGO tokens, written as DER and read as BER.
pub mod Length
pub mod Bounds
pub mod Answers
pub mod RoundTrip
pub mod Response
mod Tests
use smb1client_rs.Base.{
  ℕ, zero, suc, ◌+◌, ◌-◌, ◌*◌, ◌/◌, ◌%◌, ◌^◌, Bool, false, ◌==◌, ◌||◌, ◌&&◌, ltb, if◌then◌else◌,
  Option, none, some, List, [], ◌∷◌, ◌++◌, length, take, drop, get_from, get_to, get_range, as_u8,
  Result, ok, err, ok_or, guard, ◌>>=◌, ◌>>◌,
}

abbrev pub tag_application_0 : ℕ
tag_application_0 = 0x60

abbrev pub tag_oid : ℕ
tag_oid = 0x06

abbrev pub tag_octet_string : ℕ
tag_octet_string = 0x04

abbrev pub tag_sequence : ℕ
tag_sequence = 0x30

abbrev pub tag_context_0 : ℕ
tag_context_0 = 0xA0

abbrev pub tag_context_1 : ℕ
tag_context_1 = 0xA1

abbrev pub tag_context_2 : ℕ
tag_context_2 = 0xA2

abbrev pub tag_context_3 : ℕ
tag_context_3 = 0xA3

abbrev pub spnego_oid : List ℕ
spnego_oid = 0x2B ∷ 0x06 ∷ 0x01 ∷ 0x05 ∷ 0x05 ∷ 0x02 ∷ []

abbrev pub ntlmssp_oid : List ℕ
ntlmssp_oid = 0x2B ∷ 0x06 ∷ 0x01 ∷ 0x04 ∷ 0x01 ∷ 0x82 ∷ 0x37 ∷ 0x02 ∷ 0x02 ∷ 0x0A ∷ []

abbrev pub max_depth : ℕ
max_depth = 16

pub data SpnegoError : Type 0 where
  truncated : (at : ℕ) → SpnegoError
  length_too_large : SpnegoError
  unexpected_tag : (expected actual : ℕ) → SpnegoError
  unterminated_indefinite too_deep no_response_token : SpnegoError

-- How a reading stops without a value: the source's error, a slice out of range, or the model's fuel.
pub data Stop : Type 0 where
  failed : SpnegoError → Stop
  panicked out_of_fuel : Stop

pub record Tlv : Type 0 where
  pub tag : ℕ
  pub value : List ℕ
  pub consumed : ℕ

-- `for &byte in raw { length = (length << 8) | usize::from(byte) }`; a byte fits the bits that the
-- shift frees, so `|` is a sum.
abbrev pub from_be : ℕ → List ℕ → ℕ
from_be length [] = length
from_be length (byte ∷ raw) = from_be (length * 2 ^ 8 % 2 ^ 64 + byte) raw

-- The length in its long form, of `count` bytes, and where the value begins.
abbrev pub long_length : (count : ℕ) → List ℕ → Result Stop (ℕ × ℕ)
long_length count bytes =
    if count == 0 || ltb 8 count
    then err (failed length_too_large)
    else (ok_or (get_range 2 (2 + count) bytes) (failed (truncated 2)) >>= λ raw.
        ok (from_be 0 raw, 2 + count))

-- The length by its first byte: bit 7 tells the long form.
abbrev pub length_header : (first : ℕ) → List ℕ → Result Stop (ℕ × ℕ)
length_header first bytes =
    if first / 2 ^ 7 % 2 == 0 then ok (first, 2) else long_length (first % 2 ^ 7) bytes

-- `bytes.get(header..).and_then(|rest| rest.get(..length))`
abbrev pub slice : (header length : ℕ) → List ℕ → Option (List ℕ)
slice header length bytes = elim (get_from header bytes) [
  | none ↦ none
  | some rest ↦ get_to length rest
]

abbrev pub definite : (tag : ℕ) → List ℕ → ℕ × ℕ → Result Stop Tlv
definite tag bytes (length, header) = do
  value ← ok_or (slice header length bytes) (failed (truncated header))
  ok (record { tag = tag; value = value; consumed = header + length })

abbrev pub is_end : List ℕ → Bool
is_end (a ∷ b ∷ []) = a == 0 && b == 0
is_end pair = false

-- The loop over the values of an indefinite length, on fuel; `read` reads one of them.
pub contents : (List ℕ → Result Stop Tlv) → (fuel tag : ℕ) → List ℕ → (at : ℕ) → Result Stop Tlv
contents read zero tag body at = err out_of_fuel
contents read (suc fuel) tag body at =
    let more =
      read (drop at body) >>= (λ inner. contents read fuel tag body (at + inner.consumed)) in
    elim (get_range at (at + 2) body) [
      | none ↦ err (failed unterminated_indefinite)
      | some pair ↦
          if is_end pair
          then ok (record { tag = tag; value = take at body; consumed = 2 + at + 2 })
          else more
    ]

pub read_first : (List ℕ → Result Stop Tlv) → List ℕ → Result Stop Tlv
unfolding contents
read_first read [] = err (failed (truncated 0))
read_first read (tag ∷ []) = err (failed (truncated 1))
read_first read (tag ∷ first ∷ body) =
    if first == 0x80
    then contents read (suc (length body)) tag body 0
    else (length_header first (tag ∷ first ∷ body) >>= definite tag (tag ∷ first ∷ body))

-- Recursion is on the levels that are left below `MAX_DEPTH`, the level itself included.
pub read_levels : ℕ → List ℕ → Result Stop Tlv
unfolding read_first
read_levels zero bytes = err (failed too_deep)
read_levels (suc levels) bytes = read_first (read_levels levels) bytes

unfoldable pub read_tlv : List ℕ → (depth : ℕ) → Result Stop Tlv
unfolding read_levels
read_tlv bytes depth = read_levels (max_depth + 1 - depth) bytes

unfoldable pub expect : List ℕ → (tag depth : ℕ) → Result Stop Tlv
unfolding read_tlv
expect bytes tag depth = do
  tlv ← read_tlv bytes depth
  guard (tlv.tag == tag) (failed (unexpected_tag tag tlv.tag))
  ok tlv

-- `usize::to_be_bytes`, of `w` bytes.
pub to_be_bytes : (w : ℕ) → ℕ → List ℕ
to_be_bytes zero n = []
to_be_bytes (suc w) n = to_be_bytes w (n / 2 ^ 8) ++ (n % 2 ^ 8) ∷ []

abbrev pub drop_zeroes : List ℕ → List ℕ
drop_zeroes [] = []
drop_zeroes (b ∷ bytes) = if b == 0 then drop_zeroes bytes else b ∷ bytes

-- The count of bytes leaves bit 7 free, so `|` is a sum.
abbrev pub long_form : List ℕ → List ℕ
long_form significant = (0x80 + as_u8 (length significant)) ∷ significant

unfoldable pub length_bytes : ℕ → List ℕ
unfolding to_be_bytes
length_bytes n = if ltb n 0x80 then as_u8 n ∷ [] else long_form (drop_zeroes (to_be_bytes 8 n))

unfoldable pub put_tlv : List ℕ → (tag : ℕ) → List ℕ → List ℕ
unfolding length_bytes
put_tlv out tag value = out ++ (tag ∷ (length_bytes (length value) ++ value))

unfoldable pub mech_list : List ℕ
unfolding put_tlv
mech_list = put_tlv [] tag_sequence (put_tlv [] tag_oid ntlmssp_oid)

unfoldable pub neg_token_init : List ℕ → List ℕ
unfolding put_tlv mech_list
neg_token_init mech_token =
    let token = put_tlv [] tag_octet_string mech_token in
    let init = put_tlv (put_tlv [] tag_context_0 mech_list) tag_context_2 token in
    let sequence = put_tlv [] tag_sequence init in
    let inner = put_tlv (put_tlv [] tag_oid spnego_oid) tag_context_0 sequence in
    put_tlv [] tag_application_0 inner

unfoldable pub neg_token_resp : (response_token mech_list_mic : List ℕ) → List ℕ
unfolding put_tlv
neg_token_resp response_token mech_list_mic =
    let token = put_tlv [] tag_octet_string response_token in
    let fields = put_tlv [] tag_context_2 token in
    let mic = put_tlv [] tag_octet_string mech_list_mic in
    let sequence = put_tlv [] tag_sequence (put_tlv fields tag_context_3 mic) in
    put_tlv [] tag_context_1 sequence

-- `&bytes[at..]`
abbrev pub tail_from : (at : ℕ) → List ℕ → Result Stop (List ℕ)
tail_from at bytes = ok_or (get_from at bytes) panicked

-- The token without its GSS-API wrapper, if it has one.
abbrev pub unwrapped : List ℕ → Tlv → Result Stop (List ℕ)
unwrapped token outer =
    if outer.tag == tag_application_0
    then (expect outer.value tag_oid 1 >>= λ oid. tail_from oid.consumed outer.value)
    else ok token

unfoldable pub is_field : (tag : ℕ) → Bool
is_field tag =
    tag == tag_context_0 || tag == tag_context_1 || tag == tag_context_2 || tag == tag_context_3

-- A round of the loop over the fields, with what goes on with the rest.
abbrev pub take_field : List ℕ → (List ℕ → Result Stop (List ℕ)) → Tlv → Result Stop (List ℕ)
take_field rest next field =
    if field.tag == tag_context_2
    then (expect field.value tag_octet_string 4 >>= λ octets. ok octets.value)
    else if is_field field.tag
    then (tail_from field.consumed rest >>= next)
    else err (failed (unexpected_tag tag_context_2 field.tag))

-- The loop over the fields, on fuel.
pub fields : (fuel : ℕ) → List ℕ → Result Stop (List ℕ)
fields zero rest = err out_of_fuel
fields (suc fuel) [] = err (failed no_response_token)
fields (suc fuel) (byte ∷ rest) =
    read_tlv (byte ∷ rest) 3 >>= take_field (byte ∷ rest) (fields fuel)

unfoldable pub response_token : List ℕ → Result Stop (List ℕ)
unfolding read_tlv expect fields
response_token token = do
  outer ← read_tlv token 0
  body ← unwrapped token outer
  negotiation ← expect body tag_context_1 1
  sequence ← expect negotiation.value tag_sequence 2
  fields (suc (length sequence.value)) sequence.value
