-- ===== src/Connection/Table/Allocate.antt =====
-- `allocate` and `dispatch`: an id that is issued is free, and the request that takes it is counted.
use smb1client_rs.Base.{
  ℕ, zero, suc, ◌+◌, ◌-◌, ◌≤◌, ◌<◌, ◌≡◌, ◌≢◌, refl, sym, ◌∙◌, ap, true, false, leb, Option, none,
  some, List, arith, length, Bool-cases, Option-cases, inl, inr, ◌⊎◌,
}
use smb1client_rs.Base.Dict.{lookup}
use smb1client_rs.Connection.Assembly.{Assembly}
use smb1client_rs.Connection.Entry.{Entry, on_wire}
use smb1client_rs.Connection.Table.{
  RequestTable, pool, last_mid, next_mid, probe, allocate, dispatch,
}
use smb1client_rs.Connection.Table.Valid.{IsValid, moved}
use smb1client_rs.Connection.Table.Rows.{with_row, with_row-IsValid}
use mathlib.Core.Path.{subst}
use native.Mathlib.Decide.{dec_lt}

probe_free :
    (n c : ℕ) (entries : List (ℕ × Entry)) (c' mid : ℕ)
    → c ≤ last_mid
    → probe n c entries ≡ (c', some mid)
    → (lookup mid entries ≡ none) × (mid ≤ last_mid)
unfolding probe
probe_free zero c entries c' mid h e = cc
probe_free (suc n) c entries c' mid h e = ground (arith, probe_free n (next_mid c) entries c' mid)

probe-cursor :
    (n c : ℕ) (entries : List (ℕ × Entry)) → c ≤ last_mid → (probe n c entries).0 ≤ last_mid
unfolding probe
probe-cursor zero c entries h = h
probe-cursor (suc n) c entries h = ground (arith, probe-cursor n (next_mid c) entries)

-- The id that the loop looks at after `k` rounds.
visited : ℕ → ℕ → ℕ
visited zero c = c
visited (suc k) c = visited k (next_mid c)

probe_held :
    (n k c : ℕ) (entries : List (ℕ × Entry)) (c' : ℕ)
    → probe n c entries ≡ (c', none)
    → k < n
    → lookup (visited k c) entries ≢ none
unfolding probe visited
probe_held zero k c entries c' e h = elim h [ ]
probe_held (suc n) zero c entries c' e h = ground arith
probe_held (suc n) (suc k) c entries c' e h = ground (arith, probe_held n k (next_mid c) entries c')

visited-ahead : (k c : ℕ) → c + k ≤ last_mid → visited k c ≡ c + k
unfolding visited
visited-ahead zero c h = omega arith
visited-ahead (suc k) c h = ground (arith, visited-ahead k (c + 1))

visited-round : (k c : ℕ) → c ≤ last_mid → last_mid < c + k → k ≤ pool → visited k c ≡ c + k - pool
unfolding visited
visited-round zero c h l p = absurd (omega arith)
visited-round (suc k) c h l p = elim (dec_lt c last_mid) [
  | yes lt ↦ ground (arith, visited-round k (c + 1))
  | no ge ↦ ground (arith, visited-ahead k 0)
]

probe-none :
    (c mid : ℕ) (entries : List (ℕ × Entry)) (c' : ℕ)
    → c ≤ last_mid
    → mid ≤ last_mid
    → probe pool c entries ≡ (c', none)
    → lookup mid entries ≢ none
probe-none c mid entries c' h m e = elim (dec_lt mid c) [
  | yes lt ↦
      let at : visited (mid + pool - c) c ≡ mid =
        visited-round (mid + pool - c) c h (omega arith) (omega arith) ∙ omega arith in
      rw at at (probe_held pool (mid + pool - c) c entries c' e (omega arith))
  | no ge ↦
      let at : visited (mid - c) c ≡ mid = visited-ahead (mid - c) c (omega arith) ∙ omega arith in
      rw at at (probe_held pool (mid - c) c entries c' e (omega arith))
]

allocate_full : (t : RequestTable) → leb pool (length t.entries) ≡ true → allocate t ≡ (t, none)
unfolding allocate
allocate_full t h = rw h refl

allocate_room :
    (t : RequestTable)
    → leb pool (length t.entries) ≡ false
    → allocate t
      ≡ (record t { cursor = (probe pool t.cursor t.entries).0 }, (probe pool t.cursor t.entries).1)
unfolding allocate
allocate_room t h = rw h refl

with_cursor-IsValid :
    (t : RequestTable) (c : ℕ) → IsValid t → c ≤ last_mid → IsValid (record t { cursor = c })
with_cursor-IsValid t c v h = record {
  unique = v.unique;
  issued = v.issued;
  cursor_issued = h;
  ordered = v.ordered;
  scheduled = v.scheduled;
  charged = v.charged;
  remembered = v.remembered;
}

-- On a valid table, `allocate` leaves the table valid, whether it takes an id or not.
pub allocate-IsValid : (t : RequestTable) → IsValid t → IsValid (allocate t).0
allocate-IsValid t v = elim (Bool-cases (leb pool (length t.entries))) [
  | inl h ↦ rw (allocate_full t h) v
  | inr h ↦
      rw (allocate_room t h)
        (with_cursor-IsValid t _ v (probe-cursor pool t.cursor t.entries v.cursor_issued))
]

-- On a valid table, the id that `allocate` takes is held by no row, not even a retired one, and is not
-- 0xFFFF; the rows are unchanged.
pub allocate_free :
    (t t' : RequestTable) (mid : ℕ)
    → IsValid t
    → allocate t ≡ (t', some mid)
    → (lookup mid t.entries ≡ none) × (mid ≤ last_mid) × (t'.entries ≡ t.entries)
allocate_free t t' mid v e = elim (Bool-cases (leb pool (length t.entries))) [
  | inl h ↦ cc (e, allocate_full t h)
  | inr h ↦
      let same = sym (allocate_room t h) ∙ e in
      let (f, m) =
        probe_free pool t.cursor t.entries _ mid v.cursor_issued
          (ap (λ r. ((probe pool t.cursor t.entries).0, r)) (ap (λ r. r.1) same)) in
      (f, m, sym (ap (λ r. r.0.entries) same))
]

allocate-none :
    (t t' : RequestTable)
    → IsValid t
    → allocate t ≡ (t', none)
    → (pool ≤ length t.entries) ⊎ ((mid : ℕ) → mid ≤ last_mid → lookup mid t.entries ≢ none)
allocate-none t t' v e = elim (Bool-cases (leb pool (length t.entries))) [
  | inl h ↦ inl (ground (arith, h))
  | inr h ↦
      let same = sym (allocate_room t h) ∙ e in
      inr (λ mid m.
        probe-none t.cursor mid t.entries _ v.cursor_issued m
          (ap (λ r. ((probe pool t.cursor t.entries).0, r)) (ap (λ r. r.1) same)))
]

-- On a valid table with fewer rows than there are ids, `allocate` takes an id wherever one up to 0xFFFE
-- is held by no row: it never misses one that is free.
pub allocate_finds :
    (t : RequestTable) (mid : ℕ)
    → IsValid t
    → length t.entries < pool
    → mid ≤ last_mid
    → lookup mid t.entries ≡ none
    → (t' : RequestTable) × (found : ℕ) × (allocate t ≡ (t', some found))
allocate_finds t mid v room m free = elim (Option-cases (allocate t).1) [
  | inl nothing ↦ elim (allocate-none t (allocate t).0 v (ap (λ r. ((allocate t).0, r)) nothing)) [
    | inl full ↦ absurd (omega (arith, full, room))
    | inr held ↦ absurd (held mid m free)
  ]
  | inr (found, e) ↦ ((allocate t).0, found, ap (λ r. ((allocate t).0, r)) e)
]

-- A request dispatched on a valid table, under an id up to 0xFFFE that no row holds, leaves the table
-- valid: it is counted, and its first deadline is listed.
pub dispatch-IsValid :
    (t : RequestTable) (mid command : ℕ) (reply : Option ℕ) (assembly : Option Assembly)
    (outcome : Option ℕ) (now : ℕ)
    → IsValid t
    → lookup mid t.entries ≡ none
    → mid ≤ last_mid
    → IsValid (dispatch t mid command reply assembly outcome now)
unfolding dispatch with_row moved
dispatch-IsValid t mid command reply assembly outcome now v free h = subst IsValid (rw free refl) (
    with_row-IsValid t mid
      (record {
        command = command;
        assembly = assembly;
        outcome = outcome;
        state = on_wire reply (now + t.timeouts.per_request) (now + t.timeouts.overall);
      })
      (t.charging + 1) t.retired_count v h (rw free (omega arith)) (rw free (omega arith)))

-- Taking an id moves the cursor, and nothing else.
pub allocate_cursor :
    (t : RequestTable) → (allocate t).0 ≡ record t { cursor = (allocate t).0.cursor }
allocate_cursor t = elim (Bool-cases (leb pool (length t.entries))) [
  | inl h ↦ rw (allocate_full t h) refl
  | inr h ↦ rw (allocate_room t h) refl
]
