-- ===== src/Connection/Actor.antt =====
-- The state of `Actor` of src/connection/actor.rs and what it does at each event. Time is an argument,
-- and so is whether the caller of a request has gone.
pub mod Pump
pub mod Sound
pub mod Admission
pub mod Turns
pub mod Safety
mod Tests
use smb1client_rs.Base.{
  ℕ, ◌+◌, ◌-◌, min, Bool, true, false, not, ◌==◌, ◌&&◌, ◌||◌, ltb, leb, if◌then◌else◌, Option, none,
  some, List, [], ◌∷◌, ◌++◌, length, Result, ok, err, ◌>>=◌,
}
use smb1client_rs.Status.{user_session_deleted}
use smb1client_rs.Wire.Binrw.{Binrw}
use smb1client_rs.Wire.Error.{WireError}
use smb1client_rs.Wire.Andx.{no_further_command}
use smb1client_rs.Wire.Header
use smb1client_rs.Wire.Header.{
  SmbHeader, read_andx, write_andx, session_setup_andx, logoff_andx, tree_connect_andx,
  nt_create_andx, transaction, transaction2,
}
use smb1client_rs.Wire.Message.{Message, message, frame, words, contains}
use smb1client_rs.Connection.Error.{
  Error, io, wire, lost, chained_response, session_deleted, silent, pool_exhausted, Reply, Timeouts,
}
use smb1client_rs.Connection.Limits.{Negotiated, admission_limit}
use smb1client_rs.Connection.Request.{Request, Dispatch}
use smb1client_rs.Connection.Assembly
use smb1client_rs.Connection.Assembly.{Assembly}
use smb1client_rs.Connection.Entry.{Effect, told, answered}
use smb1client_rs.Connection.Table
use smb1client_rs.Connection.Table.{
  RequestTable, Fault, failed, panicked, allocate, dispatch, expire, next_expiry,
}
use smb1client_rs.Connection.Reader
use smb1client_rs.Connection.Reader.{FrameReader, Inbound}

abbrev pub close_run : ℕ
close_run = 8

-- `ANDX_RESPONSES`
abbrev pub andx_responses : List ℕ
andx_responses =
    read_andx ∷ write_andx ∷ session_setup_andx ∷ logoff_andx ∷ tree_connect_andx ∷ nt_create_andx
    ∷ []

pub record Queued : Type 0 where
  pub mid : ℕ
  pub command : ℕ
  pub reply : Option ℕ
  pub assembly : Option Assembly
  pub outcome : Option ℕ

pub record Writing : Type 0 where
  pub frame : List ℕ
  pub cursor : ℕ
  pub queued : Option Queued

-- The halves of the socket and the two channels are no part of it: what they deliver is an event.
pub record Actor : Type 0 where
  pub inbound : FrameReader
  pub writing : Option Writing
  pub requests_done : Bool
  pub closes_done : Bool
  pub table : RequestTable
  pub timeouts : Timeouts
  pub silent_for : ℕ
  pub waiting_since : Option ℕ
  pub consecutive_closes : ℕ

-- `spawn`
unfoldable pub spawn : Negotiated → Timeouts → Actor
spawn negotiated timeouts = record {
  inbound = Reader.new;
  writing = none;
  requests_done = false;
  closes_done = false;
  table = Table.new (admission_limit negotiated) timeouts;
  timeouts = timeouts;
  silent_for = 0;
  waiting_since = none;
  consecutive_closes = 0;
}

-- An actor, the result of what it did, and whom it told.
abbrev pub Act : Type 0
Act = Actor × Result Fault (Unit {0}) × List Effect

-- `matches!(request.command, TRANSACTION | TRANSACTION2).then(…)`
abbrev pub assembly_of : Request → Option Assembly
assembly_of r =
    if r.command == transaction || r.command == transaction2
    then some (Assembly.new r.max_parameter_count r.max_data_count)
    else none

-- The frame of a request under an id.
abbrev pub framed : Binrw → Request → ℕ → Result WireError (List ℕ)
framed binrw r mid = do
  whole ←
      message binrw (record (Header.request r.command) { mid = mid; tid = r.tid; uid = r.uid })
        r.body
  frame whole

-- The rest of `begin`, once a frame was built or not.
pub begin_framed : Actor → Dispatch → ℕ → Result WireError (List ℕ) → Act
begin_framed a d mid (err e) =
    (a, ok tt, told d.request.outcome (err (wire e)) ++ answered d.reply (err (wire e)))
begin_framed a d mid (ok built) = (
  record a {
    writing = some (record {
      frame = built;
      cursor = 0;
      queued = some (record {
        mid = mid;
        command = d.request.command;
        reply = d.reply;
        assembly = assembly_of d.request;
        outcome = d.request.outcome;
      });
    });
  },
  ok tt,
  [],
)

-- The rest of `begin`, once an id was taken or not.
pub begin_allocated : Binrw → Actor → Dispatch → RequestTable × Option ℕ → Act
unfolding begin_framed
begin_allocated binrw a d (t, none) = (record a { table = t }, err (failed pool_exhausted), [])
begin_allocated binrw a d (t, some mid) =
    begin_framed (record a { table = t }) d mid (framed binrw d.request mid)

abbrev pub is_some {ℓ} : {A : Type ℓ} → Option A → Bool
is_some none = false
is_some (some x) = true

-- `Actor::begin`; `gone` is `reply.is_closed()`.
unfoldable pub begin : Binrw → Actor → Dispatch → (gone : Bool) → Act
unfolding begin_allocated
begin binrw a d gone =
    if is_some d.reply && gone
    then (a, ok tt, told d.request.outcome (err lost))
    else begin_allocated binrw a d (allocate a.table)

-- `Actor::note_waiting`, by what it matches on.
pub noted : Option ℕ → (charging : Bool) → Actor → (now : ℕ) → Actor
noted none true a now = record a { waiting_since = some now }
noted (some since) false a now = record a {
  silent_for = a.silent_for + (now - since);
  waiting_since = none;
}
noted none false a now = a
noted (some since) true a now = a

unfoldable pub note_waiting : Actor → (now : ℕ) → Actor
unfolding noted
note_waiting a now = noted a.waiting_since (ltb 0 a.table.charging) a now

-- `Actor::silent_for`
unfoldable pub silence : Actor → (now : ℕ) → ℕ
silence a now = a.silent_for + (elim a.waiting_since [ none ↦ 0 | some since ↦ now - since ])

abbrev sooner : Option ℕ → Option ℕ → Option ℕ
sooner none other = other
sooner (some a) none = some a
sooner (some a) (some b) = some (min a b)

-- `Actor::next_wake`
unfoldable pub next_wake : Actor → Option ℕ
next_wake a = sooner (next_expiry a.table) (elim a.waiting_since [
  | none ↦ none
  | some since ↦ some (since + (a.timeouts.overall - a.silent_for))
])

-- The table once the first byte of a frame is written.
abbrev pub committed : RequestTable → Option Queued → (now : ℕ) → RequestTable
committed t none now = t
committed t (some q) now = dispatch t q.mid q.command q.reply q.assembly q.outcome now

-- The frame in progress, `written` bytes later.
abbrev pub advanced : Writing → (written : ℕ) → Option Writing
advanced w written =
    if leb (length w.frame) (w.cursor + written)
    then none
    else some (record { frame = w.frame; cursor = w.cursor + written; queued = none })

pub wrote_in : Option Writing → Actor → (written now : ℕ) → Act
wrote_in none a written now = (a, err panicked, [])
wrote_in (some w) a written now = (
  note_waiting (record a { table = committed a.table w.queued now; writing = advanced w written })
      now,
  ok tt,
  [],
)

-- `Actor::wrote`
unfoldable pub wrote : Actor → (written now : ℕ) → Act
unfolding wrote_in
wrote a written now =
    if written == 0 then (a, err (failed io), []) else wrote_in a.writing a written now

abbrev pub chains : List ℕ → Option ℕ
chains [] = none
chains (next ∷ rest) = if next == no_further_command then none else some next

-- `chained_command`
unfoldable pub chained_command : Message → Option ℕ
chained_command m = if contains andx_responses m.header.command then chains (words m) else none

-- The rest of `route`, once the table has taken the message.
pub routed : Actor → Message → (now : ℕ) → Table.Outcome → Act
unfolding note_waiting
routed a m now (t, err e, effects) = (record a { table = t }, err e, effects)
routed a m now (t, ok tt, effects) =
    let a' = note_waiting (record a { table = t }) now in
    (
      a',
      if m.header.status == user_session_deleted then err (failed session_deleted) else ok tt,
      effects,
    )

pub route_message : Binrw → Actor → Message → (now : ℕ) → Option ℕ → Act
unfolding routed
route_message binrw a m now (some next) = (a, err (failed (chained_response next)), [])
route_message binrw a m now none =
    let a' = record a { silent_for = 0; waiting_since = none } in
    routed a' m now (Table.accept binrw a'.table m now)

-- `Actor::route`
unfoldable pub route : Binrw → Actor → Inbound → (now : ℕ) → Act
unfolding route_message
route binrw a Inbound.keep_alive now = (a, ok tt, [])
route binrw a (Inbound.message m) now = route_message binrw a m now (chained_command m)

-- `Actor::tick`
unfoldable pub tick : Actor → (now : ℕ) → Act
unfolding note_waiting silence
tick a now =
    let (t, result, effects) = expire a.table now in
    if is_some a.waiting_since && leb a.timeouts.overall (silence a now)
    then (a, err (failed silent), [])
    else (note_waiting (record a { table = t }) now, result, effects)
