-- ===== src/Connection/Assembly.antt =====
-- `Assembly` of src/connection/reassembly.rs: the reassembly of a transaction reply from its
-- messages. An operation that fails returns no state: its caller retires the request and drops
-- the reassembly. The source's `data` is the field `payload`.
pub mod Ready
pub mod Deliver
pub mod Source
pub mod Guards
pub mod Released
pub mod Steps
pub mod Carried
use smb1client_rs.Base.{
  ℕ, ◌+◌, Bool, true, false, ◌&&◌, Option, none, some, List, [], ◌∷◌, ltb, if◌then◌else◌, not,
  is_empty, Result, ok, err, ◌>>=◌, ◌>>◌, guard,
}
use smb1client_rs.Connection.Track.{
  Track, parameter_block, data_block, ReassemblyError, too_many_fragments, no_progress, declare,
  is_complete, take_bytes,
}
use smb1client_rs.Connection.Track
use smb1client_rs.Wire.Transaction.{TransactionResponse}

abbrev pub fragment_cap : ℕ
fragment_cap = 64

abbrev pub empty_tolerance : ℕ
empty_tolerance = 1

pub data Progress : Type 0 where
  continuing complete : Progress

pub record Assembly : Type 0 where
  pub parameters : Track
  pub payload : Track
  pub setup : List ℕ
  pub fragments : ℕ
  pub empty : ℕ
  pub buffered : Bool

-- `Assembly::new`
unfoldable pub new : ℕ → ℕ → Assembly
unfolding Track.new
new max_parameter_count max_data_count = record {
  parameters = Track.new parameter_block max_parameter_count;
  payload = Track.new data_block max_data_count;
  setup = [];
  fragments = 0;
  empty = 0;
  buffered = true;
}

-- `Assembly::release`
unfoldable pub release : Assembly → Assembly
unfolding Track.release
release a = record a {
  parameters = Track.release a.parameters;
  payload = Track.release a.payload;
  setup = [];
  buffered = false;
}

-- The guard that `accept` opens with: a message more, while the buffer is held.
pub count_fragment : Assembly → Result ReassemblyError Assembly
count_fragment a =
    if not a.buffered
    then ok a
    else if ltb fragment_cap (a.fragments + 1)
    then err (too_many_fragments fragment_cap)
    else ok (record a { fragments = a.fragments + 1 })

-- The guard that `accept` ends with: a message that carries no bytes.
pub count_empty : Assembly → TransactionResponse → Result ReassemblyError Assembly
count_empty a r =
    if not (a.buffered && is_empty r.parameters && is_empty r.payload)
    then ok a
    else if ltb empty_tolerance (a.empty + 1)
    then err no_progress
    else ok (record a { empty = a.empty + 1 })

-- The tracks and the setup words after a message.
abbrev pub updated : Assembly → TransactionResponse → Track → Track → Assembly
updated a r parameters payload = record a {
  parameters = parameters;
  payload = payload;
  setup = if not (is_empty r.setup) then r.setup else a.setup;
}

-- What `accept` answers at its end.
abbrev pub progress : Assembly → Progress
progress a = if is_complete a.parameters && is_complete a.payload then complete else continuing

-- `Assembly::accept`
unfoldable pub accept :
    Assembly → TransactionResponse → Result ReassemblyError (Assembly × Progress)
unfolding count_fragment count_empty
accept a r = do
  a₁ ← count_fragment a
  parameters ← declare a₁.parameters r.total_parameter_count
  payload ← declare a₁.payload r.total_data_count
  parameters' ← Track.accept parameters r.parameter_displacement r.parameters
  payload' ← Track.accept payload r.data_displacement r.payload
  a₂ ← count_empty (updated a₁ r parameters' payload') r
  ok (a₂, progress a₂)

-- `Assembly::finish`
unfoldable pub finish : Assembly → List ℕ × List ℕ × List ℕ
finish a = (a.setup, take_bytes a.parameters, take_bytes a.payload)

-- What `Entry::accept` of table.rs does with the messages of one request, in the order of their
-- arrival: it ends at an error, finishes at the message that completes the reply, and otherwise
-- waits (`none`).
unfoldable pub reassemble :
    Assembly → List TransactionResponse → Result ReassemblyError (Option (List ℕ × List ℕ × List ℕ))
unfolding accept finish
reassemble a [] = ok none
reassemble a (r ∷ rs) = do
  (a', progress) ← accept a r
  elim progress [ complete ↦ ok (some (finish a')) | continuing ↦ reassemble a' rs ]
