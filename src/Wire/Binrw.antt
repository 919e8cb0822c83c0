-- ===== src/Wire/Binrw.antt =====
-- What the code takes from the binrw crate, whose derives read and write the fixed structures: the
-- header of src/wire/header.rs and the response words of src/wire/transaction.rs.
use smb1client_rs.Base.{ℕ, List, Result}
use smb1client_rs.Wire.Error.{WireError}
use smb1client_rs.Wire.Header.{SmbHeader}

-- `ResponseWords` of src/wire/transaction.rs.
pub record ResponseWords : Type 0 where
  pub total_parameter_count : ℕ
  pub total_data_count : ℕ
  pub reserved : ℕ
  pub parameter_count : ℕ
  pub parameter_offset : ℕ
  pub parameter_displacement : ℕ
  pub data_count : ℕ
  pub data_offset : ℕ
  pub data_displacement : ℕ
  pub setup_count : ℕ
  pub reserved2 : ℕ

pub record Binrw : Type 0 where
  pub read_header : List ℕ → Result WireError SmbHeader
  pub write_header : SmbHeader → Result WireError (List ℕ)
  pub read_response_words : List ℕ → Result WireError ResponseWords
