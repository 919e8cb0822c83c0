-- ===== src/Connection/Error.antt =====
-- src/connection/mod.rs: the errors of a connection, and what it answers a request with.
use smb1client_rs.Base.{ℕ, List, Option}
use smb1client_rs.Wire.Error.{WireError}
use smb1client_rs.Wire.Message.{Message}
use smb1client_rs.Connection.Track.{ReassemblyError}

pub data Error : Type 0 where
  io : Error
  wire : WireError → Error
  timeout : Error
  reassembly : ReassemblyError → Error
  lost : Error
  unroutable : (mid command : ℕ) → Error
  chained_response : ℕ → Error
  session_deleted : Error
  silent : Error
  retirement_budget : ℕ → Error
  pool_exhausted : Error

-- The source's `data` is the field `payload`.
pub record TransactionBody : Type 0 where
  pub setup : List ℕ
  pub parameters : List ℕ
  pub payload : List ℕ

pub record Reply : Type 0 where
  pub message : Message
  pub transaction : Option TransactionBody

-- Durations and instants are numbers of one unit.
pub record Timeouts : Type 0 where
  pub per_request : ℕ
  pub overall : ℕ
