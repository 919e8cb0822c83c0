-- ===== src/Auth/Spnego/Tests.antt =====
-- The theorems on SPNEGO tokens at concrete inputs.
use smb1client_rs.Base.{ℕ, ◌≡◌, refl, List, [], ◌∷◌, ◌++◌, length, arith, ok}
use smb1client_rs.Auth.Spnego.{
  read_tlv, put_tlv, tag_octet_string, neg_token_resp, response_token, length_bytes, mech_list,
}
use smb1client_rs.Auth.Spnego.Bounds.{Reads, read_tlv-Reads}
use smb1client_rs.Auth.Spnego.Answers.{Answers, response_token-Answers}
use smb1client_rs.Auth.Spnego.RoundTrip.{read_tlv-put_tlv}
use smb1client_rs.Auth.Spnego.Response.{response_token-neg_token_resp, wrapped}

-- A sequence of indefinite length, around an octet string of one byte.
abbrev indefinite : List ℕ
indefinite = 0x30 ∷ 0x80 ∷ 0x04 ∷ 0x01 ∷ 0xFF ∷ 0 ∷ 0 ∷ []

indefinite_read :
    read_tlv indefinite 0
    ≡ ok (record { tag = 0x30; value = 0x04 ∷ 0x01 ∷ 0xFF ∷ []; consumed = 7 })
unfolding read_tlv
indefinite_read = refl

-- A length of 300 takes two bytes more.
long_length_bytes : length_bytes 300 ≡ 0x82 ∷ 1 ∷ 44 ∷ []
unfolding length_bytes
long_length_bytes = refl

mech_list_bytes :
    mech_list
    ≡ 0x30 ∷ 0x0C ∷ 0x06 ∷ 0x0A ∷ 0x2B ∷ 0x06 ∷ 0x01 ∷ 0x04 ∷ 0x01 ∷ 0x82 ∷ 0x37 ∷ 0x02 ∷ 0x02
      ∷ 0x0A ∷ []
unfolding mech_list
mech_list_bytes = refl

read_tlv-put_tlv_example :
    read_tlv (put_tlv [] tag_octet_string (1 ∷ 2 ∷ 3 ∷ []) ++ (9 ∷ [])) 16
    ≡ ok (record {
      tag = tag_octet_string;
      value = 1 ∷ 2 ∷ 3 ∷ [];
      consumed = length (put_tlv [] tag_octet_string (1 ∷ 2 ∷ 3 ∷ []));
    })
read_tlv-put_tlv_example =
    read_tlv-put_tlv tag_octet_string 16 (1 ∷ 2 ∷ 3 ∷ []) (9 ∷ []) (omega arith) (omega arith)

response_token-neg_token_resp_example :
    (response_token (neg_token_resp (1 ∷ 2 ∷ []) (3 ∷ [])) ≡ ok (1 ∷ 2 ∷ []))
    × (response_token (wrapped (neg_token_resp (1 ∷ 2 ∷ []) (3 ∷ []))) ≡ ok (1 ∷ 2 ∷ []))
response_token-neg_token_resp_example =
    response_token-neg_token_resp (1 ∷ 2 ∷ []) (3 ∷ []) (omega arith)

read_tlv-Reads_example : Reads indefinite (read_tlv indefinite 0)
read_tlv-Reads_example = read_tlv-Reads indefinite 0

response_token-Answers_example : Answers 7 (response_token indefinite)
response_token-Answers_example = response_token-Answers indefinite
