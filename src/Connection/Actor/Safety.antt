-- ===== src/Connection/Actor/Safety.antt =====
-- Every event that the loop handles leaves a sound actor, or an error that the code reports.
use smb1client_rs.Base.{
  ℕ, ◌+◌, ◌≤◌, ◌≡◌, refl, Bool, true, not, ◌==◌, Option, none, some, List, [], ◌++◌, arith, ok, err,
  Bool-cases, inl, inr,
}
use smb1client_rs.Status.{user_session_deleted}
use smb1client_rs.Wire.Binrw.{Binrw}
use smb1client_rs.Wire.Message.{Message}
use smb1client_rs.Connection.Error.{Timeouts}
use smb1client_rs.Connection.Limits.{Negotiated}
use smb1client_rs.Connection.Table
use smb1client_rs.Connection.Table.{
  RequestTable, Fault, failed, panicked, out_of_fuel, last_mid, allocate, dispatch,
}
use smb1client_rs.Connection.Table.Kept.{Keeps, accept-Keeps}
use smb1client_rs.Connection.Reader.{FrameReader, Inbound, Taken, step}
use smb1client_rs.Connection.Reader.Part.{IsInHand, Drained, step-Drained}
use smb1client_rs.Connection.Actor.{
  Actor, Act, Writing, close_run, route, route_message, routed, chained_command, is_some,
}
use smb1client_rs.Connection.Actor.Pump.{
  Event, close, request, inbound, written, timer, rested, can_admit, take_close, take_request,
  is_enabled, Delivers, inbound_taken, handle, Round, Reach, start, round,
}
use smb1client_rs.Connection.Actor.Sound.{
  IsSound, Leaves, spawn-IsSound, rested-IsSound, note_waiting-IsSound, kept-IsQuiet, tick-Leaves,
}
use smb1client_rs.Connection.Actor.Turns.{closes_in_row, Reach-closes_in_row}
use mathlib.Core.Path.{subst}
use smb1client_rs.Connection.Actor.Admission.{Admits, begin-Leaves, wrote-Leaves}

routed-Leaves :
    (n : Negotiated) (a : Actor) (m : Message) (now silent : ℕ) (since : Option ℕ)
    → IsSound n a
    → (o : Table.Outcome) → Keeps a.table o.0 o.1
    → let (a', r, effects) =
        routed (record a { silent_for = silent; waiting_since = since }) m now o in
      Leaves n a' r
unfolding routed
routed-Leaves n a m now silent since s (t, err (failed e), effects) k = tt
routed-Leaves n a m now silent since s (t, err panicked, effects) k = k.reported
routed-Leaves n a m now silent since s (t, err out_of_fuel, effects) k = k.reported
routed-Leaves n a m now silent since s (t, ok tt, effects) k =
    elim (Bool-cases (m.header.status == user_session_deleted)) [
      | inl deleted ↦ rw deleted tt
      | inr going ↦
          rw going
            (note_waiting-IsSound n _ now (kept-IsQuiet n a t silent since s k.valid k.shrinks))
    ]

route-Leaves :
    (n : Negotiated) (binrw : Binrw) (a : Actor) (i : Inbound) (now : ℕ)
    → IsSound n a
    → let (a', r, effects) = route binrw a i now in Leaves n a' r
unfolding route route_message
route-Leaves n binrw a Inbound.keep_alive now s = s
route-Leaves n binrw a (Inbound.message m) now s = by_chain (chained_command m)
  where
    by_chain :
        (c : Option ℕ) → let (a', r, effects) = route_message binrw a m now c in Leaves n a' r
    by_chain (some next) = tt
    by_chain none =
        routed-Leaves n a m now 0 none s (Table.accept binrw a.table m now)
          (accept-Keeps binrw a.table m now s.valid)

with_reader-IsSound :
    (n : Negotiated) (a : Actor) (r : FrameReader) (part : List ℕ)
    → IsSound n a
    → IsInHand r part
    → IsSound n (record a { inbound = r })
with_reader-IsSound n a r part s h = record {
  valid = s.valid;
  limited = s.limited;
  admitted = s.admitted;
  free = s.free;
  fair = s.fair;
  watched = s.watched;
  in_hand = (part, h);
}

inbound_taken-Leaves :
    (n : Negotiated) (binrw : Binrw) (a : Actor) (now : ℕ) (part : List ℕ)
    → IsSound n a
    → (x : Taken) → Drained binrw part x
    → let (a', r, effects) = inbound_taken binrw a now x in Leaves n a' r
unfolding inbound_taken
inbound_taken-Leaves n binrw a now part s (r, err (failed e)) h = tt
inbound_taken-Leaves n binrw a now part s (r, err panicked) h = absurd h
inbound_taken-Leaves n binrw a now part s (r, err out_of_fuel) h = absurd h
inbound_taken-Leaves n binrw a now part s (r, ok none) h = with_reader-IsSound n a r part s h
inbound_taken-Leaves n binrw a now part s (r, ok (some i)) (f, h) =
    route-Leaves n binrw (record a { inbound = r }) i now (with_reader-IsSound n a r [] s h)

no_frame : (w : Option Writing) → not (is_some w) ≡ true → w ≡ none
no_frame none h = refl
no_frame (some w) h = ground (arith, h)

can_admit-Admits :
    (n : Negotiated) (a : Actor) (consecutive : ℕ)
    → IsSound n a
    → can_admit a ≡ true
    → consecutive ≤ close_run
    → Admits n (record a { consecutive_closes = consecutive })
unfolding can_admit
can_admit-Admits n a consecutive s h c = record {
  sound = record {
    valid = s.valid;
    limited = s.limited;
    admitted = s.admitted;
    free = s.free;
    fair = c;
    watched = s.watched;
    in_hand = s.in_hand;
  };
  idle = no_frame a.writing (ground (arith, h));
  place = ground (arith, h, s.limited);
}

-- Of a sound actor, an event that its guard lets through, of a socket that keeps to its contract,
-- leaves a sound actor or an error that the code reports: no `expect` fails, and no loop is cut off.
pub handle-Leaves :
    (n : Negotiated) (binrw : Binrw) (a : Actor) (closes_empty : Bool) (event : Event) (now : ℕ)
    → IsSound n a
    → is_enabled closes_empty a event ≡ true
    → Delivers a event
    → let (a', r, effects) = handle binrw a event now in Leaves n a' r
unfolding handle is_enabled take_close take_request
handle-Leaves n binrw a closes_empty (close none gone) now s h d = record {
  valid = s.valid;
  limited = s.limited;
  admitted = s.admitted;
  free = s.free;
  fair = s.fair;
  watched = s.watched;
  in_hand = s.in_hand;
}
handle-Leaves n binrw a closes_empty (close (some dispatch) gone) now s h d =
    begin-Leaves n binrw _ dispatch gone
      (can_admit-Admits n a (a.consecutive_closes + 1) s (ground (arith, h)) (ground (arith, h)))
handle-Leaves n binrw a closes_empty (request none gone) now s h d = record {
  valid = s.valid;
  limited = s.limited;
  admitted = s.admitted;
  free = s.free;
  fair = s.fair;
  watched = s.watched;
  in_hand = s.in_hand;
}
handle-Leaves n binrw a closes_empty (request (some dispatch) gone) now s h d =
    begin-Leaves n binrw _ dispatch gone
      (can_admit-Admits n a 0 s (ground (arith, h)) (omega arith))
handle-Leaves n binrw a closes_empty (inbound read) now s h d =
    let (part, hand) = s.in_hand in
    inbound_taken-Leaves n binrw a now (part ++ read) s (step binrw a.inbound read)
      (step-Drained binrw a.inbound part read hand d)
handle-Leaves n binrw a closes_empty (written taken) now s h d = wrote-Leaves n a taken now s h
handle-Leaves n binrw a closes_empty timer now s h d = tick-Leaves n a now s

reached-IsSound :
    (n : Negotiated) (binrw : Binrw) (timeouts : Timeouts) {rounds : List Round} {a : Actor}
    → Reach binrw n timeouts rounds a
    → IsSound n a
reached-IsSound n binrw timeouts start = spawn-IsSound n timeouts
reached-IsSound n binrw timeouts
      (round {a} {a'} {effects} p q event now before going enabled delivers e) =
    subst (λ (x : Act). Leaves n x.0 x.1) e
      (handle-Leaves n binrw (rested p q a) q event now
        (rested-IsSound n p q a (reached-IsSound n binrw timeouts before)) enabled delivers)

-- Every actor that the loop comes to, whatever the order and the times of its events, is sound: the
-- requests on the wire and the one whose frame waits are no more than the admission limit, that
-- request's id is still free, silence is measured exactly while a request is on the wire, the table
-- is valid, and the reader has a part of one frame. And by then at most eight closes have been taken
-- since a request was, or since a round began with one of the two queues empty.
pub Reach-IsSound :
    (n : Negotiated) (binrw : Binrw) (timeouts : Timeouts) {rounds : List Round} {a : Actor}
    → Reach binrw n timeouts rounds a
    → IsSound n a × (closes_in_row rounds ≤ close_run)
Reach-IsSound n binrw timeouts r =
    let s = reached-IsSound n binrw timeouts r in
    (s, subst (λ k. k ≤ close_run) (Reach-closes_in_row n binrw timeouts r) s.fair)
