-- ===== src/Auth/Spnego/Response.antt =====
-- The token of the second leg is read back, with a GSS-API wrapper and without.
use smb1client_rs.Base.{
  get_from-append, ℕ, suc, ◌+◌, ◌≤◌, ◌<◌, ◌^◌, ◌≡◌, refl, sym, ◌∙◌, ap, List, [], ◌++◌, length,
  length-append, arith, ok, ◌>>=◌,
}
use smb1client_rs.Auth.Spnego
use smb1client_rs.Auth.Spnego.{
  Tlv, Stop, slice, definite, read_first, read_levels, read_tlv, length_header, length_bytes,
  put_tlv, expect, max_depth, tag_oid, tag_octet_string, tag_sequence, tag_context_0, tag_context_1,
  tag_context_2, tag_context_3, tag_application_0, spnego_oid, fields, take_field, response_token,
  neg_token_resp,
}
use mathlib.Core.List.{append-nil}
use smb1client_rs.Auth.Spnego.RoundTrip.{
  read_tlv-put_tlv, expect-tlv, put_tlv-append, expect-put_tlv, length-put_tlv,
}

fields_round :
    (fuel tag : ℕ) (value rest : List ℕ)
    → fields (suc fuel) (put_tlv [] tag value ++ rest) ≡ (
        read_tlv (put_tlv [] tag value ++ rest) 3
        >>= take_field (put_tlv [] tag value ++ rest) (fields fuel))
unfolding fields put_tlv
fields_round fuel tag value rest = refl

-- The fields of a token whose first is a `responseToken`.
fields-tlv :
    (fuel : ℕ) (value rest : List ℕ)
    → length value < 2 ^ 63
    → fields (suc fuel) (put_tlv [] tag_context_2 (put_tlv [] tag_octet_string value) ++ rest)
      ≡ ok value
fields-tlv fuel value rest h =
    let small : length value < 2 ^ 64 = omega (arith, h) in
    let octets = put_tlv [] tag_octet_string value in
    rw
      (
        fields_round fuel tag_context_2 octets rest,
        read_tlv-put_tlv tag_context_2 3 octets rest
            (omega (arith, length-put_tlv tag_octet_string value small, h)) (omega arith),
        expect-put_tlv tag_octet_string 4 value small (omega arith),
      )
      refl

-- The `NegTokenResp` of some fields.
abbrev pub resp : List ℕ → List ℕ
resp inner = put_tlv [] tag_context_1 (put_tlv [] tag_sequence inner)

-- The same, in the wrapper that only a first token must have.
abbrev pub wrapped : List ℕ → List ℕ
wrapped token = put_tlv [] tag_application_0 (put_tlv [] tag_oid spnego_oid ++ token)

length-resp :
    (inner : List ℕ) → length inner + 10 < 2 ^ 64 → length (resp inner) ≤ length inner + 20
length-resp inner h =
    let small : length inner < 2 ^ 64 = omega (arith, h) in
    let outer : length (put_tlv [] tag_sequence inner) < 2 ^ 64 =
      omega (arith, h, length-put_tlv tag_sequence inner small) in
    omega (
      arith,
      length-put_tlv tag_sequence inner small,
      length-put_tlv tag_context_1 (put_tlv [] tag_sequence inner) outer,
    )

-- What is left to read once the body of a token is found.
unwrapped_resp :
    (inner : List ℕ)
    → length inner + 10 < 2 ^ 64
    → (expect (resp inner) tag_context_1 1 >>= λ negotiation.
        (expect negotiation.value tag_sequence 2 >>= λ sequence.
        fields (suc (length sequence.value)) sequence.value))
      ≡ fields (suc (length inner)) inner
unwrapped_resp inner h =
    let small : length inner < 2 ^ 64 = omega (arith, h) in
    rw
      (
        expect-put_tlv tag_context_1 1 (put_tlv [] tag_sequence inner)
            (omega (arith, length-put_tlv tag_sequence inner small, h)) (omega arith),
        expect-put_tlv tag_sequence 2 inner small (omega arith),
      )
      refl

read_tlv-all :
    (tag depth : ℕ) (value : List ℕ)
    → length value < 2 ^ 64
    → depth ≤ max_depth
    → read_tlv (put_tlv [] tag value) depth
      ≡ ok (record { tag = tag; value = value; consumed = length (put_tlv [] tag value) })
read_tlv-all tag depth value h k =
    ap (λ bytes. read_tlv bytes depth) (sym (append-nil (put_tlv [] tag value)))
    ∙ read_tlv-put_tlv tag depth value [] h k

response_token-resp :
    (inner : List ℕ)
    → length inner + 10 < 2 ^ 64
    → response_token (resp inner) ≡ fields (suc (length inner)) inner
unfolding response_token
response_token-resp inner h =
    let small : length inner < 2 ^ 64 = omega (arith, h) in
    rw
      (
        response_token,
        read_tlv-all tag_context_1 0 (put_tlv [] tag_sequence inner)
            (omega (arith, length-put_tlv tag_sequence inner small, h)) (omega arith),
      )
      (unwrapped_resp inner h)

tail_from-append : (front rest : List ℕ) → Spnego.tail_from (length front) (front ++ rest) ≡ ok rest
tail_from-append front rest =
    rw (Spnego.tail_from, get_from-append (length front) front rest refl) refl

response_token-wrapped :
    (inner : List ℕ)
    → length inner + 100 < 2 ^ 64
    → response_token (wrapped (resp inner)) ≡ fields (suc (length inner)) inner
unfolding response_token
response_token-wrapped inner h =
    let oid = put_tlv [] tag_oid spnego_oid in
    let front : length oid ≤ 16 = length-put_tlv tag_oid spnego_oid (omega arith) in
    let body : length (oid ++ resp inner) < 2 ^ 64 =
      omega
        (arith, length-append oid (resp inner), length-resp inner (omega (arith, h)), front, h) in
    rw
      (
        response_token,
        read_tlv-all tag_application_0 0 (oid ++ resp inner) body (omega arith),
        expect-tlv tag_oid 1 spnego_oid (resp inner) (omega arith) (omega arith),
        tail_from-append oid (resp inner),
      )
      (unwrapped_resp inner (omega (arith, h)))

neg_token_resp_lem :
    (token mic : List ℕ)
    → neg_token_resp token mic
      ≡ resp (
          put_tlv [] tag_context_2 (put_tlv [] tag_octet_string token)
          ++ put_tlv [] tag_context_3 (put_tlv [] tag_octet_string mic))
unfolding neg_token_resp
neg_token_resp_lem token mic = ap resp (
    put_tlv-append (put_tlv [] tag_context_2 (put_tlv [] tag_octet_string token)) tag_context_3
      (put_tlv [] tag_octet_string mic))

length-field :
    (tag : ℕ) (value : List ℕ)
    → length value < 2 ^ 63
    → length (put_tlv [] tag (put_tlv [] tag_octet_string value)) ≤ length value + 20
length-field tag value h =
    let small : length value < 2 ^ 64 = omega (arith, h) in
    let octets : length (put_tlv [] tag_octet_string value) ≤ length value + 10 =
      length-put_tlv tag_octet_string value small in
    omega (
      arith,
      octets,
      length-put_tlv tag (put_tlv [] tag_octet_string value) (omega (arith, octets, h)),
    )

-- A token of the second leg whose two parts have fewer than 2^63 bytes together gives its
-- `responseToken` back, whatever its `mechListMIC` is, and so it does inside a GSS-API wrapper.
pub response_token-neg_token_resp :
    (token mic : List ℕ)
    → length token + length mic < 2 ^ 63
    → (response_token (neg_token_resp token mic) ≡ ok token)
      × (response_token (wrapped (neg_token_resp token mic)) ≡ ok token)
response_token-neg_token_resp token mic h =
    let field = put_tlv [] tag_context_2 (put_tlv [] tag_octet_string token) in
    let last = put_tlv [] tag_context_3 (put_tlv [] tag_octet_string mic) in
    let size : length (field ++ last) + 100 < 2 ^ 64 = omega (
      arith,
      length-append field last,
      length-field tag_context_2 token (omega (arith, h)),
      length-field tag_context_3 mic (omega (arith, h)),
      h,
    ) in
    let first : fields (suc (length (field ++ last))) (field ++ last) ≡ ok token =
      fields-tlv (length (field ++ last)) token last (omega (arith, h)) in
    rw (neg_token_resp_lem token mic) (
      response_token-resp (field ++ last) (omega (arith, size)) ∙ first,
      response_token-wrapped (field ++ last) size ∙ first,
    )
