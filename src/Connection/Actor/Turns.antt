-- ===== src/Connection/Actor/Turns.antt =====
-- The closes taken in a row, counted from the rounds alone, and the actor's own count of them.
use smb1client_rs.Base.{
  ℕ, ◌+◌, ◌≡◌, refl, sym, ◌∙◌, ap, Bool, true, false, ◌||◌, ◌&&◌, ◌==◌, leb, if◌then◌else◌, Option,
  none, some, List, [], ◌∷◌, Result, ok, err, Bool-cases, inl, inr,
}
use smb1client_rs.Wire.Binrw.{Binrw}
use smb1client_rs.Wire.Error.{WireError}
use smb1client_rs.Wire.Message.{Message}
use smb1client_rs.Connection.Error.{Timeouts}
use smb1client_rs.Connection.Limits.{Negotiated}
use smb1client_rs.Connection.Request.{Dispatch}
use smb1client_rs.Connection.Table
use smb1client_rs.Connection.Table.{RequestTable, Fault, allocate, expire}
use smb1client_rs.Connection.Reader.{Inbound, Taken, step}
use smb1client_rs.Connection.Actor.{
  Actor, Act, Writing, spawn, begin, begin_allocated, begin_framed, framed, noted, note_waiting,
  wrote, wrote_in, route, route_message, routed, chained_command, tick, silence, is_some, committed,
  advanced,
}
use smb1client_rs.Connection.Actor.Pump.{
  Event, close, request, inbound, written, timer, rested, inbound_taken, handle, Round, Reach,
  start, round,
}

-- A close that is taken is one more, a request that is taken ends the run, and nothing else counts.
abbrev pub counted : Event → ℕ → ℕ
counted (close none gone) n = n
counted (close (some d) gone) n = n + 1
counted (request none gone) n = n
counted (request (some d) gone) n = 0
counted (inbound read) n = n
counted (written taken) n = n
counted timer n = n

-- The closes taken since a request was, or since a round began with a queue empty: the ones that have
-- gone before a request that waits. The last round comes first.
unfoldable pub closes_in_row : List Round → ℕ
closes_in_row [] = 0
closes_in_row ((requests_empty, closes_empty, event) ∷ earlier) =
    let before = closes_in_row earlier in
    counted event (if requests_empty || closes_empty then 0 else before)

-- An act that leaves the count as it is.
abbrev Uncounted : Actor → Act → Type 0
Uncounted a act = act.0.consecutive_closes ≡ a.consecutive_closes

begin_framed-Uncounted :
    (a : Actor) (d : Dispatch) (mid : ℕ) (f : Result WireError (List ℕ))
    → Uncounted a (begin_framed a d mid f)
unfolding begin_framed
begin_framed-Uncounted a d mid (err e) = refl
begin_framed-Uncounted a d mid (ok built) = refl

begin_allocated-Uncounted :
    (binrw : Binrw) (a : Actor) (d : Dispatch) (x : RequestTable × Option ℕ)
    → Uncounted a (begin_allocated binrw a d x)
unfolding begin_allocated
begin_allocated-Uncounted binrw a d (t, none) = refl
begin_allocated-Uncounted binrw a d (t, some mid) =
    begin_framed-Uncounted (record a { table = t }) d mid (framed binrw d.request mid)

begin-Uncounted :
    (binrw : Binrw) (a : Actor) (d : Dispatch) (gone : Bool) → Uncounted a (begin binrw a d gone)
unfolding begin
begin-Uncounted binrw a d gone = elim (Bool-cases (is_some d.reply && gone)) [
  | inl left ↦ rw (begin, left) refl
  | inr waits ↦ rw (begin, waits) (begin_allocated-Uncounted binrw a d (allocate a.table))
]

noted-Uncounted :
    (since : Option ℕ) (charging : Bool) (a : Actor) (now : ℕ)
    → (noted since charging a now).consecutive_closes ≡ a.consecutive_closes
unfolding noted
noted-Uncounted none true a now = refl
noted-Uncounted none false a now = refl
noted-Uncounted (some since) true a now = refl
noted-Uncounted (some since) false a now = refl

note_waiting-Uncounted :
    (a : Actor) (now : ℕ) → (note_waiting a now).consecutive_closes ≡ a.consecutive_closes
unfolding note_waiting
note_waiting-Uncounted a now = noted-Uncounted _ _ a now

wrote_in-Uncounted :
    (w : Option Writing) (a : Actor) (taken now : ℕ) → Uncounted a (wrote_in w a taken now)
unfolding wrote_in
wrote_in-Uncounted none a taken now = refl
wrote_in-Uncounted (some w) a taken now =
    note_waiting-Uncounted
      (record a { table = committed a.table w.queued now; writing = advanced w taken }) now

wrote-Uncounted : (a : Actor) (taken now : ℕ) → Uncounted a (wrote a taken now)
unfolding wrote
wrote-Uncounted a taken now = elim (Bool-cases (taken == 0)) [
  | inl nothing ↦ rw (wrote, nothing) refl
  | inr some_bytes ↦ rw (wrote, some_bytes) (wrote_in-Uncounted a.writing a taken now)
]

routed-Uncounted :
    (a : Actor) (m : Message) (now : ℕ) (o : Table.Outcome) → Uncounted a (routed a m now o)
unfolding routed
routed-Uncounted a m now (t, err e, effects) = refl
routed-Uncounted a m now (t, ok tt, effects) = note_waiting-Uncounted (record a { table = t }) now

route_message-Uncounted :
    (binrw : Binrw) (a : Actor) (m : Message) (now : ℕ) (c : Option ℕ)
    → Uncounted a (route_message binrw a m now c)
unfolding route_message
route_message-Uncounted binrw a m now (some next) = refl
route_message-Uncounted binrw a m now none =
    routed-Uncounted (record a { silent_for = 0; waiting_since = none }) m now
      (Table.accept binrw a.table m now)

route-Uncounted :
    (binrw : Binrw) (a : Actor) (i : Inbound) (now : ℕ) → Uncounted a (route binrw a i now)
unfolding route
route-Uncounted binrw a Inbound.keep_alive now = refl
route-Uncounted binrw a (Inbound.message m) now =
    route_message-Uncounted binrw a m now (chained_command m)

inbound_taken-Uncounted :
    (binrw : Binrw) (a : Actor) (now : ℕ) (x : Taken) → Uncounted a (inbound_taken binrw a now x)
unfolding inbound_taken
inbound_taken-Uncounted binrw a now (r, err e) = refl
inbound_taken-Uncounted binrw a now (r, ok none) = refl
inbound_taken-Uncounted binrw a now (r, ok (some i)) =
    route-Uncounted binrw (record a { inbound = r }) i now

tick-Uncounted : (a : Actor) (now : ℕ) → Uncounted a (tick a now)
unfolding tick
tick-Uncounted a now =
    elim (Bool-cases (is_some a.waiting_since && leb a.timeouts.overall (silence a now))) [
      | inl quiet ↦ rw (tick, quiet) refl
      | inr heard ↦
          rw (tick, heard)
            (note_waiting-Uncounted (record a { table = (expire a.table now).0 }) now)
    ]

handle-counted :
    (binrw : Binrw) (a : Actor) (event : Event) (now : ℕ)
    → (handle binrw a event now).0.consecutive_closes ≡ counted event a.consecutive_closes
unfolding handle
handle-counted binrw a (close none gone) now = refl
handle-counted binrw a (close (some d) gone) now =
    begin-Uncounted binrw (record a { consecutive_closes = a.consecutive_closes + 1 }) d gone
handle-counted binrw a (request none gone) now = refl
handle-counted binrw a (request (some d) gone) now =
    begin-Uncounted binrw (record a { consecutive_closes = 0 }) d gone
handle-counted binrw a (inbound read) now =
    inbound_taken-Uncounted binrw a now (step binrw a.inbound read)
handle-counted binrw a (written taken) now = wrote-Uncounted a taken now
handle-counted binrw a timer now = tick-Uncounted a now

rested_lem :
    (p q : Bool) (a : Actor)
    → (rested p q a).consecutive_closes ≡ (if p || q then 0 else a.consecutive_closes)
unfolding rested
rested_lem true q a = refl
rested_lem false true a = refl
rested_lem false false a = refl

-- The actor's count is the count of its rounds.
pub Reach-closes_in_row :
    (n : Negotiated) (binrw : Binrw) (timeouts : Timeouts) {rounds : List Round} {a : Actor}
    → Reach binrw n timeouts rounds a
    → a.consecutive_closes ≡ closes_in_row rounds
unfolding closes_in_row
Reach-closes_in_row n binrw timeouts start = unfold spawn in refl
Reach-closes_in_row n binrw timeouts
      (round {a} {a'} {effects} p q event now before going enabled delivers e) =
    ap (λ (x : Act). x.0.consecutive_closes) (sym e)
    ∙ handle-counted binrw (rested p q a) event now
    ∙ ap (counted event) (
        rested_lem p q a
        ∙ ap (λ n. if p || q then 0 else n) (Reach-closes_in_row n binrw timeouts before))
