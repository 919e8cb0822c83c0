-- ===== src/Rpc/Pdu.antt =====
-- src/rpc/pdu.rs: the units of a call and of its reply, and `PduStream`, which cuts a stream into them.
pub mod Cut
pub mod RoundTrip
use smb1client_rs.Base.{
  ℕ, ◌+◌, ◌-◌, ◌*◌, ◌/◌, ◌%◌, ◌^◌, Bool, true, false, ◌==◌, ◌&&◌, not, ltb, if◌then◌else◌, Option,
  none, some, List, [], ◌∷◌, ◌++◌, length, take, drop, replicate, get_or, get_range, get_to,
  get_elem?, as_u16, to_le_bytes, from_le_bytes, Result, ok, err, ok_or, guard, ◌>>=◌, ◌>>◌,
}

abbrev pub header_len : ℕ
header_len = 16

abbrev pub response_prologue : ℕ
response_prologue = 8

abbrev pub max_fragment : ℕ
max_fragment = 4280

abbrev pub stub_cap : ℕ
stub_cap = 8 * 1_024 * 1_024

abbrev pub pdu_cap : ℕ
pdu_cap = stub_cap / (max_fragment - header_len - response_prologue) + 1

abbrev pub version_major : ℕ
version_major = 5

abbrev pub version_minor : ℕ
version_minor = 0

abbrev pub data_representation : List ℕ
data_representation = 0x10 ∷ 0 ∷ 0 ∷ 0 ∷ []

abbrev pub ptype_request : ℕ
ptype_request = 0x00

abbrev pub ptype_response : ℕ
ptype_response = 0x02

abbrev pub ptype_fault : ℕ
ptype_fault = 0x03

abbrev pub ptype_bind : ℕ
ptype_bind = 0x0B

abbrev pub ptype_bind_ack : ℕ
ptype_bind_ack = 0x0C

abbrev pub ptype_bind_nak : ℕ
ptype_bind_nak = 0x0D

abbrev pub pfc_first_frag : ℕ
pfc_first_frag = 0x01

abbrev pub pfc_last_frag : ℕ
pfc_last_frag = 0x02

abbrev pub ndr32 : List ℕ
ndr32 =
    0x04 ∷ 0x5d ∷ 0x88 ∷ 0x8a ∷ 0xeb ∷ 0x1c ∷ 0xc9 ∷ 0x11 ∷ 0x9f ∷ 0xe8 ∷ 0x08 ∷ 0x00 ∷ 0x2b ∷ 0x10
    ∷ 0x48 ∷ 0x60 ∷ []

abbrev pub ndr32_version : ℕ
ndr32_version = 2

abbrev pub bind_time_feature_negotiation : List ℕ
bind_time_feature_negotiation =
    0x2c ∷ 0x1c ∷ 0xb7 ∷ 0x6c ∷ 0x12 ∷ 0x98 ∷ 0x40 ∷ 0x45 ∷ 0x03 ∷ 0 ∷ 0 ∷ 0 ∷ 0 ∷ 0 ∷ 0 ∷ 0 ∷ []

abbrev pub bind_time_feature_negotiation_version : ℕ
bind_time_feature_negotiation_version = 1

abbrev pub interface_context : ℕ
interface_context = 0

abbrev pub result_acceptance : ℕ
result_acceptance = 0

pub data PduError : Type 0 where
  version_error : (major minor : ℕ) → PduError
  data_representation_error : List ℕ → PduError
  fragment_length_too_small : ℕ → PduError
  unexpected_type : (expected actual : ℕ) → PduError
  call_id_error : (expected actual : ℕ) → PduError
  not_first_fragment : PduError
  no_last_fragment : (pdus : ℕ) → PduError
  too_many_fragments stub_too_large : PduError
  truncated : (needed length : ℕ) → PduError
  bind_rejected : (reason : ℕ) → PduError
  context_rejected : (result reason : ℕ) → PduError
  not_ndr32 : PduError
  fault_error : (status : ℕ) → PduError

pub record PduStream : Type 0 where
  pub pending : List ℕ

-- `PduStream::push`
abbrev pub push : PduStream → List ℕ → PduStream
push s bytes = record { pending = s.pending ++ bytes }

-- `PduStream::next`
unfoldable pub next : PduStream → Result PduError (Option (List ℕ) × PduStream)
next s =
    let length_field = from_le_bytes (get_or s.pending 8 0) (get_or s.pending 9 0) in
    if ltb (length s.pending) header_len
    then ok (none, s)
    else if ltb length_field header_len
    then err (fragment_length_too_small length_field)
    else if ltb (length s.pending) length_field
    then ok (none, s)
    else ok (some (take length_field s.pending), record { pending = drop length_field s.pending })

-- `u32::to_le_bytes` and `u32::from_le_bytes`
abbrev pub to_le_bytes_u32 : ℕ → List ℕ
to_le_bytes_u32 n = n % 2 ^ 8 ∷ n / 2 ^ 8 % 2 ^ 8 ∷ n / 2 ^ 16 % 2 ^ 8 ∷ n / 2 ^ 24 % 2 ^ 8 ∷ []

abbrev pub from_le_bytes_u32 : ℕ → ℕ → ℕ → ℕ → ℕ
from_le_bytes_u32 b₀ b₁ b₂ b₃ = b₀ + b₁ * 2 ^ 8 + b₂ * 2 ^ 16 + b₃ * 2 ^ 24

-- The source's `Header`.
pub record PduHeader : Type 0 where
  pub ptype : ℕ
  pub flags : ℕ
  pub call_id : ℕ

abbrev is_data_representation : List ℕ → Bool
is_data_representation pdu =
    get_or pdu 4 0 == 0x10 && get_or pdu 5 0 == 0 && get_or pdu 6 0 == 0 && get_or pdu 7 0 == 0

-- `Header::parse`; with sixteen bytes there, every index is in range.
unfoldable pub parse : List ℕ → Result PduError PduHeader
parse pdu = do
  guard (not (ltb (length pdu) header_len)) (truncated header_len (length pdu))
  guard (get_or pdu 0 0 == version_major && get_or pdu 1 0 == version_minor)
      (version_error (get_or pdu 0 0) (get_or pdu 1 0))
  guard (is_data_representation pdu) (data_representation_error (take 4 (drop 4 pdu)))
  ok (record {
    ptype = get_or pdu 2 0;
    flags = get_or pdu 3 0;
    call_id =
        from_le_bytes_u32 (get_or pdu 12 0) (get_or pdu 13 0) (get_or pdu 14 0) (get_or pdu 15 0);
  })

-- `pdu`; the two flags are different bits, so `|` is a sum.
unfoldable pub pdu : (ptype call_id : ℕ) → List ℕ → List ℕ
pdu ptype call_id body =
    (version_major ∷ version_minor ∷ ptype ∷ (pfc_first_frag + pfc_last_frag) ∷ [])
    ++ (data_representation
        ++ (to_le_bytes (as_u16 (header_len + length body))
            ++ (to_le_bytes 0 ++ (to_le_bytes_u32 call_id ++ body))))

-- A presentation context of `bind`.
abbrev pub context : (context : ℕ) → List ℕ → ℕ → List ℕ → ℕ → List ℕ
context id interface interface_version syntax syntax_version =
    to_le_bytes id
    ++ ((1 ∷ 0 ∷ [])
        ++ (interface
            ++ (to_le_bytes_u32 interface_version ++ (syntax ++ to_le_bytes_u32 syntax_version))))

unfoldable pub bind : List ℕ → (version : ℕ) → List ℕ
unfolding pdu
bind interface version = pdu ptype_bind 0 (
    to_le_bytes max_fragment
    ++ (to_le_bytes max_fragment
        ++ (to_le_bytes_u32 0
            ++ ((2 ∷ 0 ∷ 0 ∷ 0 ∷ [])
                ++ (context interface_context interface version ndr32 ndr32_version
                    ++ context (interface_context + 1) interface version
                        bind_time_feature_negotiation bind_time_feature_negotiation_version)))))

unfoldable pub request : (call_id opnum : ℕ) → List ℕ → List ℕ
unfolding pdu
request call_id opnum stub = pdu ptype_request call_id (
    to_le_bytes_u32 (length stub) ++ (to_le_bytes interface_context ++ (to_le_bytes opnum ++ stub)))

-- `Answer`, of the collector.
pub record Answer : Type 0 where
  pub ptype : ℕ
  pub payload : List ℕ

unfoldable pub read_u16 : List ℕ → (at : ℕ) → Result PduError ℕ
read_u16 body at = elim (get_range at (at + 2) body) [
  | none ↦ err (truncated (at + 2) (length body))
  | some raw ↦ ok (from_le_bytes (get_or raw 0 0) (get_or raw 1 0))
]

-- `n.next_multiple_of(4)`
abbrev pub next_multiple_of_4 : ℕ → ℕ
next_multiple_of_4 n = (n + 3) / 4 * 4

-- Two byte strings are the same.
abbrev pub same_bytes : List ℕ → List ℕ → Bool
same_bytes [] [] = true
same_bytes (a ∷ xs) (b ∷ ys) = a == b && same_bytes xs ys
same_bytes _ _ = false

-- The first presentation context, which a `bind_ack` holds after its results' count.
unfoldable pub first_context : List ℕ → (first : ℕ) → Result PduError (Unit {0})
unfolding read_u16
first_context body first = do
  result ← read_u16 body first
  reason ← read_u16 body (first + 2)
  guard (result == result_acceptance) (context_rejected result reason)
  syntax ← ok_or (get_range (first + 4) (first + 20) body) (truncated (first + 20) (length body))
  guard (same_bytes syntax ndr32) not_ndr32

abbrev pub bind_ack_body : List ℕ → Result PduError (Unit {0})
bind_ack_body body = do
  secondary_address_length ← read_u16 body 8
  let results_at = next_multiple_of_4 (10 + secondary_address_length)
  count ← ok_or (get_elem? body results_at) (truncated (results_at + 1) (length body))
  guard (not (count == 0)) (context_rejected 0 0)
  first_context body (results_at + 4)

unfoldable pub bind_ack : Answer → Result PduError (Unit {0})
unfolding first_context
bind_ack answer =
    if answer.ptype == ptype_bind_nak
    then err (
        bind_rejected (elim (get_to 2 answer.payload) [
          | none ↦ 0
          | some raw ↦ from_le_bytes (get_or raw 0 0) (get_or raw 1 0)
        ]))
    else if answer.ptype == ptype_bind_ack
    then bind_ack_body answer.payload
    else err (unexpected_type ptype_bind_ack answer.ptype)

unfoldable pub response : Answer → Result PduError (List ℕ)
response answer =
    if answer.ptype == ptype_response
    then ok answer.payload
    else err (unexpected_type ptype_response answer.ptype)

-- `fault_status`
unfoldable pub fault_status : List ℕ → ℕ
fault_status fragment = elim (get_range (header_len + 8) (header_len + 12) fragment) [
  | none ↦ 0
  | some raw ↦ from_le_bytes_u32 (get_or raw 0 0) (get_or raw 1 0) (get_or raw 2 0) (get_or raw 3 0)
]
