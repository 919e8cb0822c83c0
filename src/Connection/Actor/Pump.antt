-- ===== src/Connection/Actor/Pump.antt =====
-- `Actor::pump` of src/connection/actor.rs: the guards of the `select`, and a round of the loop for
-- whichever source produced something.
use smb1client_rs.Base.{
  ℕ, ◌+◌, ◌≤◌, ◌≡◌, Bool, true, false, not, ◌==◌, ◌&&◌, ◌||◌, ltb, leb, if◌then◌else◌, Option, none,
  some, List, [], ◌∷◌, length, ok, err,
}
use smb1client_rs.Wire.Binrw.{Binrw}
use smb1client_rs.Connection.Error.{Timeouts}
use smb1client_rs.Connection.Entry.{Effect}
use smb1client_rs.Connection.Limits.{Negotiated}
use smb1client_rs.Connection.Request.{Dispatch}
use smb1client_rs.Connection.Table.{fail_all}
use smb1client_rs.Connection.Reader.{Taken, step}
use smb1client_rs.Connection.Actor.{
  Actor, Act, Writing, close_run, spawn, begin, wrote, route, tick, next_wake, is_some,
}

-- What a source produced: a dispatch or the end of its channel, and whether its caller has gone; the
-- bytes of one read; how many bytes one write took; or the timer. A read or a write that
-- fails ends the loop with its error, and is no event here.
pub data Event : Type 0 where
  close : Option Dispatch → (gone : Bool) → Event
  request : Option Dispatch → (gone : Bool) → Event
  inbound : List ℕ → Event
  written : ℕ → Event
  timer : Event

-- The start of a round, with whether the two channels are empty.
unfoldable pub rested : (requests_empty closes_empty : Bool) → Actor → Actor
rested requests_empty closes_empty a =
    if requests_empty || closes_empty then record a { consecutive_closes = 0 } else a

-- Whether the loop ends here.
unfoldable pub is_finished : Actor → Bool
is_finished a = a.requests_done && a.closes_done && not (is_some a.writing) && a.table.charging == 0

unfoldable pub can_admit : Actor → Bool
can_admit a = not (is_some a.writing) && ltb a.table.charging a.table.limit

unfoldable pub take_close : Actor → Bool
unfolding can_admit
take_close a = can_admit a && not a.closes_done && ltb a.consecutive_closes close_run

unfoldable pub take_request : (closes_empty : Bool) → Actor → Bool
unfolding can_admit
take_request closes_empty a =
    can_admit a && not a.requests_done && (leb close_run a.consecutive_closes || closes_empty)

-- The precondition of an event's branch.
unfoldable pub is_enabled : (closes_empty : Bool) → Actor → Event → Bool
unfolding take_close take_request
is_enabled closes_empty a (close d gone) = take_close a
is_enabled closes_empty a (request d gone) = take_request closes_empty a
is_enabled closes_empty a (inbound read) = true
is_enabled closes_empty a (written n) = is_some a.writing
is_enabled closes_empty a timer = is_some (next_wake a)

abbrev pub Room : Option Writing → ℕ → Type 0
Room none n = Unit {0}
Room (some w) n = w.cursor + n ≤ length w.frame

-- What the socket keeps to: a read fills no more than the buffer it was given, and a write takes no
-- more than there is.
abbrev pub Delivers : Actor → Event → Type 0
Delivers a (close d gone) = Unit {0}
Delivers a (request d gone) = Unit {0}
Delivers a (inbound read) = a.inbound.filled + length read ≤ length a.inbound.buffer
Delivers a (written n) = Room a.writing n
Delivers a timer = Unit {0}

-- The branch of an inbound read, once the reader has taken it.
unfoldable pub inbound_taken : Binrw → Actor → (now : ℕ) → Taken → Act
inbound_taken binrw a now (r, err e) = (record a { inbound = r }, err e, [])
inbound_taken binrw a now (r, ok none) = (record a { inbound = r }, ok tt, [])
inbound_taken binrw a now (r, ok (some i)) = route binrw (record a { inbound = r }) i now

-- The match of `pump` on the event.
unfoldable pub handle : Binrw → Actor → Event → (now : ℕ) → Act
unfolding inbound_taken
handle binrw a (close none gone) now = (record a { closes_done = true }, ok tt, [])
handle binrw a (close (some d) gone) now =
    begin binrw (record a { consecutive_closes = a.consecutive_closes + 1 }) d gone
handle binrw a (request none gone) now = (record a { requests_done = true }, ok tt, [])
handle binrw a (request (some d) gone) now =
    begin binrw (record a { consecutive_closes = 0 }) d gone
handle binrw a (inbound read) now = inbound_taken binrw a now (step binrw a.inbound read)
handle binrw a (written n) now = wrote a n now
handle binrw a timer now = tick a now

-- What a round saw: whether the two channels were empty as it began, and its event.
abbrev pub Round : Type 0
Round = Bool × Bool × Event

-- The actors that the loop comes to, at the start of a round, in any order of events and at any times,
-- with the rounds before it, the last one first.
pub data Reach (binrw : Binrw) (negotiated : Negotiated) (timeouts : Timeouts)
    : List Round → Actor → Type 0 where
  start : Reach binrw negotiated timeouts [] (spawn negotiated timeouts)
  round :
      {rounds : List Round} {a a' : Actor} {effects : List Effect}
      (requests_empty closes_empty : Bool) (event : Event) (now : ℕ)
      → Reach binrw negotiated timeouts rounds a
      → is_finished (rested requests_empty closes_empty a) ≡ false
      → is_enabled closes_empty (rested requests_empty closes_empty a) event ≡ true
      → Delivers (rested requests_empty closes_empty a) event
      → handle binrw (rested requests_empty closes_empty a) event now ≡ (a', ok tt, effects)
      → Reach binrw negotiated timeouts ((requests_empty, closes_empty, event) ∷ rounds) a'

-- `Actor::run`, after the loop: every request that is left is told.
unfoldable pub torn_down : Actor → Actor × List Effect
torn_down a = let (t, effects) = fail_all a.table in (record a { table = t }, effects)
