-- ===== src/Connection/Actor/Sound.antt =====
-- What holds of every actor that the loop comes to: admission, the ids, the order of closes, the
-- silence window and the reader; and that no event meets a panic.
use smb1client_rs.Base.{
  ℕ, ◌+◌, ◌≤◌, ◌≡◌, refl, sym, ◌∙◌, ap, Bool, true, false, ◌&&◌, ltb, leb, Option, none, some, List,
  [], arith, Result, ok, err, Bool-cases, inl, inr,
}
use smb1client_rs.Base.Dict.{lookup}
use smb1client_rs.Connection.Error.{Timeouts}
use smb1client_rs.Connection.Limits.{Negotiated, admission_limit, admission_limit-bounds}
use smb1client_rs.Connection.Table
use smb1client_rs.Connection.Table.{
  RequestTable, Fault, failed, panicked, out_of_fuel, last_mid, allocate, dispatch, expire,
}
use smb1client_rs.Connection.Table.Valid.{IsValid, new-IsValid}
use smb1client_rs.Connection.Table.Kept.{IsReported, Shrinks, Keeps, expire-Keeps}
use smb1client_rs.Connection.Reader.Part.{IsInHand, new-IsInHand}
use smb1client_rs.Connection.Actor.{
  Actor, Writing, Queued, close_run, spawn, noted, note_waiting, tick, silence, is_some,
}
use smb1client_rs.Connection.Actor.Pump.{rested}

-- A request that is not on the wire yet takes a place among those that are.
abbrev pub places_of : Option Queued → ℕ
places_of none = 0
places_of (some q) = 1

abbrev pub places : Option Writing → ℕ
places none = 0
places (some w) = places_of w.queued

-- The id of a request that is not on the wire yet is one that `dispatch` may take.
abbrev pub IsQueuedFree : RequestTable → Option Queued → Type 0
IsQueuedFree t none = Unit {0}
IsQueuedFree t (some q) = (lookup q.mid t.entries ≡ none) × (q.mid ≤ last_mid)

abbrev pub IsFree : RequestTable → Option Writing → Type 0
IsFree t none = Unit {0}
IsFree t (some w) = IsQueuedFree t w.queued

pub record IsSound (n : Negotiated) (a : Actor) : Type 0 where
  pub valid : IsValid a.table
  pub limited : a.table.limit ≡ admission_limit n
  pub admitted : a.table.charging + places a.writing ≤ admission_limit n
  pub free : IsFree a.table a.writing
  pub fair : a.consecutive_closes ≤ close_run
  pub watched : is_some a.waiting_since ≡ ltb 0 a.table.charging
  pub in_hand : (part : List ℕ) × IsInHand a.inbound part

-- What an event leaves: a sound actor, or an error that the code reports.
abbrev pub Leaves : Negotiated → Actor → Result Fault (Unit {0}) → Type 0
Leaves n a (ok tt) = IsSound n a
Leaves n a (err (failed e)) = Unit {0}
Leaves n a (err panicked) = ⊥
Leaves n a (err out_of_fuel) = ⊥

pub spawn-IsSound : (n : Negotiated) (timeouts : Timeouts) → IsSound n (spawn n timeouts)
unfolding spawn Table.new
spawn-IsSound n timeouts = record {
  valid = unfold Table.new in new-IsValid (admission_limit n) timeouts;
  limited = refl;
  admitted = omega (arith, (admission_limit-bounds n).0);
  free = tt;
  fair = omega arith;
  watched = refl;
  in_hand = ([], new-IsInHand);
}

pub rested-IsSound :
    (n : Negotiated) (p q : Bool) (a : Actor) → IsSound n a → IsSound n (rested p q a)
unfolding rested
rested-IsSound n true q a s = record {
  valid = s.valid;
  limited = s.limited;
  admitted = s.admitted;
  free = s.free;
  fair = omega arith;
  watched = s.watched;
  in_hand = s.in_hand;
}
rested-IsSound n false true a s = record {
  valid = s.valid;
  limited = s.limited;
  admitted = s.admitted;
  free = s.free;
  fair = omega arith;
  watched = s.watched;
  in_hand = s.in_hand;
}
rested-IsSound n false false a s = s

-- All of it but the silence window, which `note_waiting` sees to.
pub record IsQuiet (n : Negotiated) (a : Actor) : Type 0 where
  pub valid : IsValid a.table
  pub limited : a.table.limit ≡ admission_limit n
  pub admitted : a.table.charging + places a.writing ≤ admission_limit n
  pub free : IsFree a.table a.writing
  pub fair : a.consecutive_closes ≤ close_run
  pub in_hand : (part : List ℕ) × IsInHand a.inbound part

noted-IsSound :
    (n : Negotiated) (since : Option ℕ) (charging : Bool) (a : Actor) (now : ℕ)
    → a.waiting_since ≡ since
    → ltb 0 a.table.charging ≡ charging
    → IsQuiet n a
    → IsSound n (noted since charging a now)
unfolding noted
noted-IsSound n none true a now e c q = record {
  valid = q.valid;
  limited = q.limited;
  admitted = q.admitted;
  free = q.free;
  fair = q.fair;
  watched = sym c;
  in_hand = q.in_hand;
}
noted-IsSound n (some since) false a now e c q = record {
  valid = q.valid;
  limited = q.limited;
  admitted = q.admitted;
  free = q.free;
  fair = q.fair;
  watched = sym c;
  in_hand = q.in_hand;
}
noted-IsSound n none false a now e c q = record {
  valid = q.valid;
  limited = q.limited;
  admitted = q.admitted;
  free = q.free;
  fair = q.fair;
  watched = ap is_some e ∙ sym c;
  in_hand = q.in_hand;
}
noted-IsSound n (some since) true a now e c q = record {
  valid = q.valid;
  limited = q.limited;
  admitted = q.admitted;
  free = q.free;
  fair = q.fair;
  watched = ap is_some e ∙ sym c;
  in_hand = q.in_hand;
}

pub note_waiting-IsSound :
    (n : Negotiated) (a : Actor) (now : ℕ) → IsQuiet n a → IsSound n (note_waiting a now)
unfolding note_waiting
note_waiting-IsSound n a now q =
    noted-IsSound n a.waiting_since (ltb 0 a.table.charging) a now refl refl q

-- The table has taken a step that keeps it.
IsFree-Shrinks :
    (t t' : RequestTable) (w : Option Writing) → Shrinks t t' → IsFree t w → IsFree t' w
IsFree-Shrinks t t' none s f = tt
IsFree-Shrinks t t' (some w) s f = by_queued w.queued f
  where
    by_queued : (q : Option Queued) → IsQueuedFree t q → IsQueuedFree t' q
    by_queued none f = tt
    by_queued (some q) (free, issued) = (s.free q.mid free, issued)

pub kept-IsQuiet :
    (n : Negotiated) (a : Actor) (t : RequestTable) (silent : ℕ) (since : Option ℕ)
    → IsSound n a
    → IsValid t
    → Shrinks a.table t
    → IsQuiet n (record a { table = t; silent_for = silent; waiting_since = since })
kept-IsQuiet n a t silent since s v h = record {
  valid = v;
  limited = h.limit_eq ∙ s.limited;
  admitted = omega (arith, s.admitted, h.charging_le);
  free = IsFree-Shrinks a.table t a.writing h s.free;
  fair = s.fair;
  in_hand = s.in_hand;
}

pub tick-Leaves :
    (n : Negotiated) (a : Actor) (now : ℕ)
    → IsSound n a
    → let (a', r, effects) = tick a now in Leaves n a' r
unfolding tick
tick-Leaves n a now s =
    elim (Bool-cases (is_some a.waiting_since && leb a.timeouts.overall (silence a now))) [
      | inl quiet ↦ rw (tick, quiet) tt
      | inr heard ↦ rw (tick, heard) (reported (expire a.table now).1 k.reported)
    ]
  where
    k : Keeps a.table (expire a.table now).0 (expire a.table now).1
    k = expire-Keeps a.table now s.valid

    reported :
        (r : Result Fault (Unit {0}))
        → IsReported r
        → Leaves n (note_waiting (record a { table = (expire a.table now).0 }) now) r
    reported (ok tt) h =
        note_waiting-IsSound n _ now
          (kept-IsQuiet n a _ a.silent_for a.waiting_since s k.valid k.shrinks)
    reported (err (failed e)) h = tt
    reported (err panicked) h = absurd h
    reported (err out_of_fuel) h = absurd h
