-- ===== src/Connection/Actor/Admission.antt =====
-- A request is begun only where there is a place, and its first byte takes it into the table.
use smb1client_rs.Base.{
  ℕ, ◌+◌, ◌≤◌, ◌<◌, ◌≡◌, refl, sym, ◌∙◌, ap, Bool, true, ◌&&◌, ◌==◌, ltb, leb, Option, none, some,
  List, length, arith, Result, ok, err, Bool-cases, inl, inr,
}
use smb1client_rs.Base.Dict.{lookup}
use smb1client_rs.Wire.Binrw.{Binrw}
use smb1client_rs.Wire.Error.{WireError}
use smb1client_rs.Connection.Limits.{Negotiated, admission_limit}
use smb1client_rs.Connection.Request.{Dispatch}
use smb1client_rs.Connection.Table.{RequestTable, last_mid, allocate, dispatch}
use smb1client_rs.Connection.Table.Valid.{IsValid}
use smb1client_rs.Connection.Table.Allocate.{
  allocate-IsValid, allocate_free, allocate_cursor, dispatch-IsValid,
}
use smb1client_rs.Connection.Actor.{
  Actor, Writing, Queued, begin, begin_allocated, begin_framed, framed, wrote, wrote_in, committed,
  advanced, is_some,
}
use smb1client_rs.Connection.Actor.Sound.{
  IsSound, IsQuiet, Leaves, places, places_of, IsFree, IsQueuedFree, note_waiting-IsSound,
}
use mathlib.Core.Path.{subst}

-- No frame is in progress, and there is a place.
pub record Admits (n : Negotiated) (a : Actor) : Type 0 where
  pub sound : IsSound n a
  pub idle : a.writing ≡ none
  pub place : a.table.charging < admission_limit n

begin_framed-Leaves :
    (n : Negotiated) (a : Actor) (d : Dispatch) (mid : ℕ)
    → Admits n a
    → lookup mid a.table.entries ≡ none
    → mid ≤ last_mid
    → (f : Result WireError (List ℕ))
    → let (a', r, effects) = begin_framed a d mid f in Leaves n a' r
unfolding begin_framed
begin_framed-Leaves n a d mid s free issued (err e) = s.sound
begin_framed-Leaves n a d mid s free issued (ok built) = record {
  valid = s.sound.valid;
  limited = s.sound.limited;
  admitted = omega (arith, s.place);
  free = (free, issued);
  fair = s.sound.fair;
  watched = s.sound.watched;
  in_hand = s.sound.in_hand;
}

-- The table with the cursor moved.
moved-Admits :
    (n : Negotiated) (a : Actor) (t : RequestTable)
    → Admits n a
    → IsValid t
    → t ≡ record a.table { cursor = t.cursor }
    → Admits n (record a { table = t })
moved-Admits n a t s v e = record {
  sound = record {
    valid = v;
    limited = ap (λ (u : RequestTable). u.limit) e ∙ s.sound.limited;
    admitted = omega (arith, charging, s.sound.admitted);
    free = subst (IsFree t) (sym s.idle) tt;
    fair = s.sound.fair;
    watched = s.sound.watched ∙ ap (ltb 0) (sym charging);
    in_hand = s.sound.in_hand;
  };
  idle = s.idle;
  place = omega (arith, charging, s.place);
}
  where
    charging : t.charging ≡ a.table.charging
    charging = ap (λ (u : RequestTable). u.charging) e

begin_allocated-Leaves :
    (n : Negotiated) (binrw : Binrw) (a : Actor) (d : Dispatch)
    → Admits n a
    → (x : RequestTable × Option ℕ) → allocate a.table ≡ x
    → let (a', r, effects) = begin_allocated binrw a d x in Leaves n a' r
unfolding begin_allocated
begin_allocated-Leaves n binrw a d s (t, none) e = tt
begin_allocated-Leaves n binrw a d s (t, some mid) e =
    let v : IsValid t = subst (λ x. IsValid x.0) e (allocate-IsValid a.table s.sound.valid) in
    let same : t ≡ record a.table { cursor = t.cursor } =
      subst (λ (x : RequestTable × Option ℕ). x.0 ≡ record a.table { cursor = x.0.cursor }) e
        (allocate_cursor a.table) in
    let (free, issued, rows) = allocate_free a.table t mid s.sound.valid e in
    begin_framed-Leaves n (record a { table = t }) d mid (moved-Admits n a t s v same)
      (ap (lookup mid) rows ∙ free) issued (framed binrw d.request mid)

pub begin-Leaves :
    (n : Negotiated) (binrw : Binrw) (a : Actor) (d : Dispatch) (gone : Bool)
    → Admits n a
    → let (a', r, effects) = begin binrw a d gone in Leaves n a' r
unfolding begin
begin-Leaves n binrw a d gone s = elim (Bool-cases (is_some d.reply && gone)) [
  | inl left ↦ rw (begin, left) s.sound
  | inr waits ↦ rw (begin, waits) (begin_allocated-Leaves n binrw a d s (allocate a.table) refl)
]

-- The request goes from the frame in progress to the table.
committed-IsQuiet :
    (n : Negotiated) (a : Actor) (w : Writing) (q : Option Queued) (later : Option Writing)
    (now : ℕ)
    → IsSound n a
    → a.table.charging + places_of q ≤ admission_limit n
    → IsQueuedFree a.table q
    → places later ≡ 0
    → IsFree (committed a.table q now) later
    → IsQuiet n (record a { table = committed a.table q now; writing = later })
unfolding dispatch
committed-IsQuiet n a w none later now s h f p i = record {
  valid = s.valid;
  limited = s.limited;
  admitted = omega (arith, h, p);
  free = i;
  fair = s.fair;
  in_hand = s.in_hand;
}
committed-IsQuiet n a w (some q) later now s h (free, issued) p i = record {
  valid =
      dispatch-IsValid a.table q.mid q.command q.reply q.assembly q.outcome now s.valid free issued;
  limited = s.limited;
  admitted = omega (arith, h, p);
  free = i;
  fair = s.fair;
  in_hand = s.in_hand;
}

advanced-places : (w : Writing) (n : ℕ) → places (advanced w n) ≡ 0
advanced-places w n = elim (Bool-cases (leb (length w.frame) (w.cursor + n))) [
  | inl h ↦ rw h refl
  | inr h ↦ rw h refl
]

advanced-IsFree : (t : RequestTable) (w : Writing) (n : ℕ) → IsFree t (advanced w n)
advanced-IsFree t w n = elim (Bool-cases (leb (length w.frame) (w.cursor + n))) [
  | inl h ↦ rw h tt
  | inr h ↦ rw h tt
]

wrote_in-Leaves :
    (n : Negotiated) (a : Actor) (w : Option Writing) (taken now : ℕ)
    → IsSound n a
    → a.writing ≡ w
    → is_some w ≡ true
    → let (a', r, effects) = wrote_in w a taken now in Leaves n a' r
unfolding wrote_in
wrote_in-Leaves n a none taken now s e h = ground (arith, h)
wrote_in-Leaves n a (some w) taken now s e h = note_waiting-IsSound n _ now (
    committed-IsQuiet n a w w.queued (advanced w taken) now s
      (subst (λ o. a.table.charging + places o ≤ admission_limit n) e s.admitted)
      (subst (IsFree a.table) e s.free) (advanced-places w taken)
      (advanced-IsFree (committed a.table w.queued now) w taken))

pub wrote-Leaves :
    (n : Negotiated) (a : Actor) (taken now : ℕ)
    → IsSound n a
    → is_some a.writing ≡ true
    → let (a', r, effects) = wrote a taken now in Leaves n a' r
unfolding wrote
wrote-Leaves n a taken now s h = elim (Bool-cases (taken == 0)) [
  | inl nothing ↦ rw (wrote, nothing) tt
  | inr some_bytes ↦ rw (wrote, some_bytes) (wrote_in-Leaves n a a.writing taken now s refl h)
]
