-- ===== src/Connection/Table/Valid.antt =====
-- The invariant of the request table, and what changing one row does to it.
use smb1client_rs.Base.{
  ℕ, ◌≤◌, ◌<◌, ◌≡◌, refl, Bool, false, ◌==◌, if◌then◌else◌, Option, none, some, List, arith,
  Bool-cases, inl, inr,
}
use smb1client_rs.Base.Dict.{
  lookup, has, total, HasUniqueKeys, IsOrdered, has-add, has-delete, add-IsOrdered,
  delete-IsOrdered,
}
use smb1client_rs.Connection.Entry.{Entry, charges, is_retired, expires_at}
use smb1client_rs.Connection.Error.{Timeouts}
use smb1client_rs.Connection.Table.{
  RequestTable, new, last_mid, schedule, unschedule, same_deadline,
}

abbrev pub charge : Entry → ℕ
charge e = if charges e then 1 else 0

abbrev pub memory : Entry → ℕ
memory e = if is_retired e.state then 1 else 0

-- Whether `at` is the deadline.
abbrev pub falls : ℕ → Option ℕ → Bool
falls at none = false
falls at (some b) = at == b

abbrev pub deadline : Option Entry → Option ℕ
deadline none = none
deadline (some e) = expires_at e

-- The rows have distinct ids, all of them below 0xFFFF; the expiry index lists exactly the
-- deadlines of the rows, in order; and the two counters count the requests on the wire and the ids
-- that are retired.
pub record IsValid (t : RequestTable) : Type 0 where
  pub unique : HasUniqueKeys t.entries
  pub issued : (mid : ℕ) → last_mid < mid → lookup mid t.entries ≡ none
  pub cursor_issued : t.cursor ≤ last_mid
  pub ordered : IsOrdered t.expiry
  pub scheduled : (at mid : ℕ) → has at mid t.expiry ≡ falls at (deadline (lookup mid t.entries))
  pub charged : t.charging ≡ total charge t.entries
  pub remembered : t.retired_count ≡ total memory t.entries

pub new-IsValid : (limit : ℕ) (timeouts : Timeouts) → IsValid (new limit timeouts)
unfolding new lookup has total
new-IsValid limit timeouts = record {
  unique = tt;
  issued = λ mid h. refl;
  cursor_issued = omega arith;
  ordered = tt;
  scheduled = λ at mid. refl;
  charged = refl;
  remembered = refl;
}

has-unschedule :
    (at mid : ℕ) (old : Option ℕ) (k : ℕ) (s : List (ℕ × ℕ))
    → IsOrdered s
    → ((b : ℕ) → has b mid s ≡ falls b old)
    → has at k (unschedule old mid s) ≡ (if mid == k then false else has at k s)
has-unschedule at mid none k s o h = ground (arith, h at)
has-unschedule at mid (some b) k s o h = ground (arith, h at, has-delete at k b mid s o)

unschedule-IsOrdered :
    (old : Option ℕ) (mid : ℕ) (s : List (ℕ × ℕ)) → IsOrdered s → IsOrdered (unschedule old mid s)
unschedule-IsOrdered none mid s o = o
unschedule-IsOrdered (some b) mid s o = delete-IsOrdered b mid s o

pub has-schedule :
    (at mid : ℕ) (new_at : Option ℕ) (k : ℕ) (s : List (ℕ × ℕ))
    → has at mid s ≡ false
    → has at k (schedule new_at mid s) ≡ (if mid == k then falls at new_at else has at k s)
has-schedule at mid none k s h = ground arith
has-schedule at mid (some b) k s h = ground (arith, has-add at k b mid s)

pub schedule-IsOrdered :
    (new_at : Option ℕ) (mid : ℕ) (s : List (ℕ × ℕ))
    → IsOrdered s
    → IsOrdered (schedule new_at mid s)
schedule-IsOrdered none mid s o = o
schedule-IsOrdered (some b) mid s o = add-IsOrdered b mid s o

-- The expiry index after the deadline of `mid` has moved from `old` to `new_at`.
unfoldable pub moved : (old new_at : Option ℕ) → ℕ → List (ℕ × ℕ) → List (ℕ × ℕ)
moved old new_at mid s =
    if same_deadline old new_at then s else schedule new_at mid (unschedule old mid s)

pub has-moved :
    (at mid : ℕ) (old new_at : Option ℕ) (k : ℕ) (s : List (ℕ × ℕ))
    → IsOrdered s
    → ((b : ℕ) → has b mid s ≡ falls b old)
    → has at k (moved old new_at mid s) ≡ (if mid == k then falls at new_at else has at k s)
unfolding moved
has-moved at mid old new_at k s o h = elim (Bool-cases (same_deadline old new_at)) [
  | inl e ↦ rw e (ground (arith, h at))
  | inr e ↦ rw e (
      ground (
        arith,
        has-schedule at mid new_at k (unschedule old mid s),
        has-unschedule at mid old k s o h,
        has-unschedule at mid old mid s o h,
      ))
]

pub moved-IsOrdered :
    (old new_at : Option ℕ) (mid : ℕ) (s : List (ℕ × ℕ))
    → IsOrdered s
    → IsOrdered (moved old new_at mid s)
unfolding moved
moved-IsOrdered old new_at mid s o = elim (Bool-cases (same_deadline old new_at)) [
  | inl e ↦ rw e o
  | inr e ↦
      rw e (schedule-IsOrdered new_at mid (unschedule old mid s) (unschedule-IsOrdered old mid s o))
]
