-- ===== src/Connection/Limits.antt =====
-- src/connection/mod.rs: what the handshake negotiated, and the limits that follow from it.
use smb1client_rs.Base.{ℕ, ◌+◌, ◌-◌, ◌≤◌, ◌<◌, Bool, ◌==◌, if◌then◌else◌, min, bit_and, arith}
use smb1client_rs.Wire.Netbios.{max_message_len}

abbrev pub admission_ceiling : ℕ
admission_ceiling = 50

abbrev pub large_io_chunk : ℕ
large_io_chunk = 130_048

abbrev pub small_io_chunk : ℕ
small_io_chunk = 65_520

abbrev pub protocol_overhead : ℕ
protocol_overhead = 1_024

abbrev pub min_buffer_size : ℕ
min_buffer_size = 4_356

abbrev pub cap_large_readx : ℕ
cap_large_readx = 0x4000

abbrev pub cap_large_writex : ℕ
cap_large_writex = 0x8000

pub record Negotiated : Type 0 where
  pub max_mpx_count : ℕ
  pub max_buffer_size : ℕ
  pub capabilities : ℕ

-- `Negotiated::admission_limit`
unfoldable pub admission_limit : Negotiated → ℕ
admission_limit n =
    if n.max_mpx_count == 0
    then 1
    else if n.max_mpx_count == 1
    then 1
    else min n.max_mpx_count admission_ceiling

-- `Connection::chunk_size`, on a connection that has been downgraded or not. Both doors into a
-- connection refuse a buffer below `min_buffer_size`, so the subtraction does not stop at 0.
unfoldable pub chunk_size : Negotiated → (downgraded : Bool) → (capability : ℕ) → ℕ
chunk_size n downgraded capability =
    let buffered = n.max_buffer_size - protocol_overhead in
    if downgraded
    then buffered
    else if bit_and n.capabilities capability == 0
    then min buffered small_io_chunk
    else large_io_chunk

-- `Connection::read_chunk_size` and `write_chunk_size`
unfoldable pub read_chunk_size : Negotiated → (downgraded : Bool) → ℕ
unfolding chunk_size
read_chunk_size n downgraded = chunk_size n downgraded cap_large_readx

unfoldable pub write_chunk_size : Negotiated → (downgraded : Bool) → ℕ
unfolding chunk_size
write_chunk_size n downgraded = chunk_size n downgraded cap_large_writex

-- A connection always admits a request, never more than 50, and never more than a server allows that
-- allows any.
pub admission_limit-bounds :
    (n : Negotiated)
    → (1 ≤ admission_limit n)
      × (admission_limit n ≤ admission_ceiling)
      × (admission_limit n ≤ n.max_mpx_count + (if n.max_mpx_count == 0 then 1 else 0))
unfolding admission_limit
admission_limit-bounds n = ground arith

-- With a negotiated buffer of at least the SMB1 minimum, a chunk is not empty, and leaves 1,023 bytes
-- for headers: in that buffer, where the connection is downgraded or the server lacks the
-- capability, and otherwise in a NetBIOS frame.
chunk_size-bounds :
    (n : Negotiated) (downgraded : Bool) (capability : ℕ)
    → min_buffer_size ≤ n.max_buffer_size
    → (0 < chunk_size n downgraded capability)
      × (chunk_size n downgraded capability + 1_023 ≤ (
          if downgraded
          then n.max_buffer_size
          else if bit_and n.capabilities capability == 0
          then n.max_buffer_size
          else max_message_len))
unfolding chunk_size
chunk_size-bounds n downgraded capability h = ground arith
