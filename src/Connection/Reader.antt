-- ===== src/Connection/Reader.antt =====
-- `FrameReader` of src/connection/actor.rs. What one `read` of the socket delivers is an argument: at
-- least one byte, unless the server closed the connection, and no more than the buffer has room for.
pub mod Part
pub mod Stream
use smb1client_rs.Base.{
  ℕ, zero, suc, ◌+◌, ◌-◌, Bool, true, false, ltb, if◌then◌else◌, Option, none, some, List, [], ◌∷◌,
  length, replicate, is_empty, Result, ok, err,
}
use smb1client_rs.Wire.Binrw.{Binrw}
use smb1client_rs.Wire.Message.{Message, parse}
use smb1client_rs.Wire.Netbios
use smb1client_rs.Wire.Netbios.{MessageType, session_message, decode_header}
use smb1client_rs.Wire.Error.{WireError}
use smb1client_rs.Connection.Error.{Error, io, wire}
use smb1client_rs.Connection.Track.{copy_at}
use smb1client_rs.Connection.Table.{Fault, failed, panicked, out_of_fuel}

pub data Inbound : Type 0 where
  message : Message → Inbound
  keep_alive : Inbound

pub data Reading : Type 0 where
  header body keep_alive : Reading

pub record FrameReader : Type 0 where
  pub buffer : List ℕ
  pub filled : ℕ
  pub state : Reading

-- `FrameReader::new`
abbrev pub new : FrameReader
new = record { buffer = replicate Netbios.header_len 0; filled = 0; state = header }

-- `FrameReader::expect_header`
abbrev pub expect_header : FrameReader → FrameReader
expect_header r = record { buffer = replicate Netbios.header_len 0; filled = 0; state = header }

abbrev pub reading_of : MessageType → Reading
reading_of session_message = body
reading_of MessageType.keep_alive = Reading.keep_alive

abbrev pub Taken : Type 0
Taken = FrameReader × Result Fault (Option Inbound)

-- The match of `take` on the header that was read.
take_header : FrameReader → Result WireError (MessageType × ℕ) → Taken
take_header r (err e) = (r, err (failed (wire e)))
take_header r (ok (kind, length)) =
    (record { buffer = replicate length 0; filled = 0; state = reading_of kind }, ok none)

take_body : FrameReader → Result WireError Message → Taken
take_body r (err e) = (r, err (failed (wire e)))
take_body r (ok m) = (expect_header r, ok (some (message m)))

-- `FrameReader::take`, by the state.
take_in : Reading → Binrw → FrameReader → Taken
unfolding take_header take_body
take_in header binrw r = elim r.buffer [
  | b₀ ∷ b₁ ∷ b₂ ∷ b₃ ∷ [] ↦ take_header r (decode_header (b₀, b₁, b₂, b₃))
  | _ ↦ (r, err panicked)
]
take_in body binrw r = take_body r (parse binrw r.buffer)
take_in Reading.keep_alive binrw r = (expect_header r, ok (some Inbound.keep_alive))

unfoldable pub take : Binrw → FrameReader → Taken
unfolding take_in
take binrw r = take_in r.state binrw r

-- What a round of the loop leads to: its end, or the rest of it.
abbrev pub and_drain : Taken → (FrameReader → Taken) → Taken
and_drain (r, err e) next = (r, err e)
and_drain (r, ok (some inbound)) next = (r, ok (some inbound))
and_drain (r, ok none) next = next r

-- The loop that `step` ends with, on fuel.
pub drain : ℕ → Binrw → FrameReader → Taken
unfolding take
drain zero binrw r = (r, err out_of_fuel)
drain (suc fuel) binrw r =
    let more = and_drain (take binrw r) (drain fuel binrw) in
    if ltb r.filled (length r.buffer) then (r, ok none) else more

-- `FrameReader::step`. A header is followed by a body or a keep-alive, and these yield, so the loop has
-- two rounds at most.
unfoldable pub step : Binrw → FrameReader → List ℕ → Taken
unfolding drain
step binrw r read =
    if ltb r.filled (length r.buffer)
    then (if is_empty read
        then (r, err (failed io))
        else drain 2 binrw
            (record r { buffer = copy_at r.filled read r.buffer; filled = r.filled + length read }))
    else drain 2 binrw r
