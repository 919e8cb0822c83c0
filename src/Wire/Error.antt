-- ===== src/Wire/Error.antt =====
-- `WireError` of src/wire/mod.rs.
use Prim.Native.String.{String}
use smb1client_rs.Base.{ℕ, List}

-- `malformed` holds an error of the binrw crate, of which nothing is read. The `part`, `field` and
-- `expected` texts are the source's literals.
pub data WireError : Type 0 where
  unknown_netbios_type : ℕ → WireError
  reserved_netbios_bits : ℕ → WireError
  message_too_long : ℕ → WireError
  malformed : WireError
  truncated : (part : String) (declared length : ℕ) → WireError
  unexpected_command : (expected actual : ℕ) → WireError
  no_response_body : (command status : ℕ) → WireError
  unexpected_word_count : (command actual : ℕ) (expected : String) → WireError
  chained_command : ℕ → WireError
  block_out_of_range : (field : String) (offset length message_length : ℕ) → WireError
  misaligned_name : (field : String) (offset : ℕ) → WireError
  no_common_dialect : WireError
  unsupported_dialect_index : ℕ → WireError
  entry_offset_too_small : (offset next minimum : ℕ) → WireError
  entry_count_mismatch : (walked search_count : ℕ) → WireError
  invalid_utf16 : (field : String) (position : ℕ) (bytes : List ℕ) → WireError
  field_too_long : (field : String) (length limit : ℕ) → WireError
