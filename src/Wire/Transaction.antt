-- ===== src/Wire/Transaction.antt =====
-- src/wire/transaction.rs: one message of a transaction reply. The source's `data` is the field
-- `payload`.
use smb1client_rs.Base.{
  ℕ, ◌+◌, ◌*◌, List, [], ◌∷◌, length, ltb, ◌==◌, ◌||◌, if◌then◌else◌, get_range, from_le_bytes,
  Result, ok, err, ok_or, ◌>>=◌, ◌>>◌, not,
}
use smb1client_rs.Wire.Error.{
  WireError, truncated, unexpected_command, no_response_body, unexpected_word_count,
}
use smb1client_rs.Wire.Header.{transaction, transaction2}
use smb1client_rs.Wire.Binrw.{Binrw}
use smb1client_rs.Wire.Message.{Message, words, block, is_bodyless}

-- Bytes and 16-bit words are numbers.
pub record TransactionResponse : Type 0 where
  pub total_parameter_count : ℕ
  pub total_data_count : ℕ
  pub parameter_displacement : ℕ
  pub data_displacement : ℕ
  pub parameter_offset : ℕ
  pub data_offset : ℕ
  pub setup : List ℕ
  pub parameters : List ℕ
  pub payload : List ℕ

abbrev pub response_fixed_words : ℕ
response_fixed_words = 10

-- `as_chunks::<2>().0`, each chunk read little-endian.
pub words_of : List ℕ → List ℕ
words_of (lo ∷ hi ∷ rest) = from_le_bytes lo hi ∷ words_of rest
words_of _ = []

unfoldable pub setup_words : Message → ℕ → ℕ → Result WireError (List ℕ)
unfolding words_of
setup_words m fixed declared = do
  let start = fixed * 2
  let end = start + declared * 2
  raw ← ok_or (get_range start end (words m)) (truncated "setup words" end (length (words m)))
  ok (words_of raw)

-- The two refusals that `TransactionResponse::decode` opens with.
pub check_shape : Message → Result WireError (Unit {0})
check_shape m =
    if not (m.header.command == transaction2 || m.header.command == transaction)
    then err (unexpected_command transaction2 m.header.command)
    else if not (ltb m.word_count response_fixed_words)
    then ok tt
    else if is_bodyless m
    then err (no_response_body m.header.command m.header.status)
    else err (unexpected_word_count m.header.command m.word_count "at least 10")

-- `TransactionResponse::decode`
unfoldable pub decode : Binrw → Message → Result WireError TransactionResponse
unfolding check_shape setup_words
decode binrw m = do
  check_shape m
  ws ← binrw.read_response_words (words m)
  setup ← setup_words m response_fixed_words ws.setup_count
  parameters ← block m "ParameterOffset" ws.parameter_offset ws.parameter_count
  payload ← block m "DataOffset" ws.data_offset ws.data_count
  ok (record {
    total_parameter_count = ws.total_parameter_count;
    total_data_count = ws.total_data_count;
    parameter_displacement = ws.parameter_displacement;
    data_displacement = ws.data_displacement;
    parameter_offset = ws.parameter_offset;
    data_offset = ws.data_offset;
    setup = setup;
    parameters = parameters;
    payload = payload;
  })
