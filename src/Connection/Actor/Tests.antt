-- ===== src/Connection/Actor/Tests.antt =====
-- The theorems on the reader and the actor at concrete inputs: a keep-alive that comes in two reads,
-- and an echo request.
use smb1client_rs.Base.{
  ℕ, ◌≤◌, ◌≡◌, refl, true, false, some, List, [], ◌∷◌, ◌++◌, replicate, arith, ok, err,
}
use smb1client_rs.Wire.Binrw.{Binrw}
use smb1client_rs.Wire.Netbios.{decode_header}
use smb1client_rs.Wire.Error.{malformed}
use smb1client_rs.Connection.Error.{Timeouts}
use smb1client_rs.Connection.Limits.{Negotiated, admission_limit}
use smb1client_rs.Connection.Table
use smb1client_rs.Connection.Track.{copy_at}
use smb1client_rs.Connection.Request
use smb1client_rs.Connection.Request.{Dispatch}
use smb1client_rs.Connection.Reader
use smb1client_rs.Connection.Reader.{FrameReader, Inbound, step}
use smb1client_rs.Connection.Reader.Part.{IsInHand}
use smb1client_rs.Connection.Reader.Stream.{Streams, Reads, start, next, Reads-Streams}
use smb1client_rs.Connection.Actor.{Actor, close_run, spawn, begin, route}
use smb1client_rs.Connection.Actor.Pump
use smb1client_rs.Connection.Actor.Pump.{
  Event, close, request, inbound, rested, is_enabled, is_finished, handle, Delivers, Round, Reach,
  round,
}
use smb1client_rs.Connection.Actor.Sound.{IsSound, Leaves, spawn-IsSound}
use smb1client_rs.Connection.Actor.Turns.{closes_in_row}
use smb1client_rs.Connection.Actor.Safety.{handle-Leaves, Reach-IsSound}

-- The crate's stand-in: every header is 32 zeroes.
abbrev codec : Binrw
codec = record {
  read_header = λ bytes. err malformed;
  write_header = λ h. ok (replicate 32 0);
  read_response_words = λ bytes. err malformed;
}

abbrev half : FrameReader
half = (step codec Reader.new (133 ∷ 0 ∷ [])).0

keep_alive_read : Reads codec Reader.new (133 ∷ 0 ∷ 0 ∷ 0 ∷ []) (Inbound.keep_alive ∷ [])
unfolding step copy_at decode_header
keep_alive_read =
    next (0 ∷ 0 ∷ []) (next {r' = half} (133 ∷ 0 ∷ []) start (omega arith) refl) (omega arith) refl

Reads-Streams_example :
    (whole part : List ℕ) × Streams codec (Inbound.keep_alive ∷ []) whole
    × IsInHand Reader.new part
    × (133 ∷ 0 ∷ 0 ∷ 0 ∷ [] ≡ whole ++ part)
Reads-Streams_example = Reads-Streams codec keep_alive_read

abbrev negotiated : Negotiated
negotiated = record { max_mpx_count = 10; max_buffer_size = 16_644; capabilities = 0 }

abbrev timeouts : Timeouts
timeouts = record { per_request = 30; overall = 300 }

abbrev echo : Dispatch
echo = record { request = Request.new 43 0 0 (0 ∷ 0 ∷ 0 ∷ []); reply = some 1 }

request_enabled : is_enabled true (spawn negotiated timeouts) (request (some echo) false) ≡ true
unfolding is_enabled spawn Table.new admission_limit
request_enabled = refl

handle-Leaves_example :
    let (a, r, effects) = handle codec (spawn negotiated timeouts) (request (some echo) false) 5 in
    Leaves negotiated a r
handle-Leaves_example =
    handle-Leaves negotiated codec (spawn negotiated timeouts) true (request (some echo) false) 5
      (spawn-IsSound negotiated timeouts) request_enabled tt

-- A keep-alive comes in two reads, and then a request and a close whose callers have gone.
abbrev resting : Actor
resting = rested true true (spawn negotiated timeouts)

abbrev halfway : Actor
halfway = (handle codec resting (inbound (133 ∷ 0 ∷ [])) 5).0

abbrev kept : Actor
kept = (handle codec halfway (inbound (0 ∷ 0 ∷ [])) 6).0

abbrev skipped : Actor
skipped = (handle codec kept (request (some echo) true) 7).0

abbrev closing : Actor
closing = (handle codec skipped (close (some echo) true) 8).0

abbrev rounds : List Round
rounds =
    (false, false, close (some echo) true)
    ∷ (false, true, request (some echo) true)
    ∷ (false, true, inbound (0 ∷ 0 ∷ []))
    ∷ (true, true, inbound (133 ∷ 0 ∷ []))
    ∷ []

four_rounds : Reach codec negotiated timeouts rounds closing
unfolding handle rested spawn begin route step copy_at decode_header is_enabled is_finished
    Table.new admission_limit
four_rounds =
    round false false (close (some echo) true) 8
      (round {a' = skipped} false true (request (some echo) true) 7
        (round {a' = kept} false true (inbound (0 ∷ 0 ∷ [])) 6
          (round {a' = halfway} true true (inbound (133 ∷ 0 ∷ [])) 5 Pump.start refl refl
            (omega arith) refl)
          refl refl (omega arith) refl)
        refl refl tt refl)
      refl refl tt refl

one_in_a_row : closes_in_row rounds ≡ 1
unfolding closes_in_row
one_in_a_row = refl

Reach-IsSound_example : IsSound negotiated closing × (closes_in_row rounds ≤ close_run)
Reach-IsSound_example = Reach-IsSound negotiated codec timeouts four_rounds
