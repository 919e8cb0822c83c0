-- ===== src/Connection/Table/Due.antt =====
-- The first deadline of a valid table: the row it is of, and the table after that row has changed.
use smb1client_rs.Base.{
  ℕ, ◌+◌, ◌≤◌, ◌≡◌, sym, ◌∙◌, ap, Bool, true, false, not, ◌&&◌, ◌==◌, if◌then◌else◌, Option, none,
  some, List, ◌∷◌, arith,
}
use smb1client_rs.Base.Dict.{
  lookup, insert, delete, has, IsOrdered, weight, total-insert, lookup-insert, insert-HasUniqueKeys,
  has-delete,
}
use smb1client_rs.Connection.Entry.{Entry, expires_at}
use smb1client_rs.Connection.Table.{RequestTable, last_mid, schedule}
use smb1client_rs.Connection.Table.Valid.{
  IsValid, charge, memory, falls, deadline, has-schedule, schedule-IsOrdered,
}
use mathlib.Core.Path.{subst}

rest-IsOrdered : (a m : ℕ) (s : List (ℕ × ℕ)) → IsOrdered ((a, m) ∷ s) → IsOrdered s
rest-IsOrdered a m s o = o.1

-- The row that the first deadline is of.
pub due-scheduled :
    (t : RequestTable) (at mid : ℕ) (rest : List (ℕ × ℕ))
    → IsValid t
    → t.expiry ≡ (at, mid) ∷ rest
    → falls at (deadline (lookup mid t.entries)) ≡ true
unfolding has
due-scheduled t at mid rest v e = sym (v.scheduled at mid) ∙ rw e (ground arith)

popped : (at mid : ℕ) (rest : List (ℕ × ℕ)) → delete (at, mid) ((at, mid) ∷ rest) ≡ rest
unfolding delete
popped at mid rest = ground arith

falls_same : (b at : ℕ) (d : Option ℕ) → falls at d ≡ true → falls b d ≡ (b == at)
falls_same b at none h = ground arith
falls_same b at (some a) h = ground arith

due_once :
    (t : RequestTable) (at mid : ℕ) (rest : List (ℕ × ℕ))
    → IsValid t
    → t.expiry ≡ (at, mid) ∷ rest
    → (b k : ℕ) → has b k rest ≡ (if mid == k then false else has b k t.expiry)
due_once t at mid rest v e b k =
    let deleted : has b k rest ≡ (not (b == at && k == mid) && has b k t.expiry) =
      ap (has b k) (sym (popped at mid rest) ∙ ap (delete (at, mid)) (sym e))
      ∙ has-delete b k at mid t.expiry v.ordered in
    let own : has b mid t.expiry ≡ (b == at) =
      v.scheduled b mid ∙ falls_same b at _ (due-scheduled t at mid rest v e) in
    once (has b k rest) (λ j. has b j t.expiry) deleted own
  where
    once :
        (r : Bool) (f : ℕ → Bool)
        → r ≡ (not (b == at && k == mid) && f k)
        → f mid ≡ (b == at)
        → r ≡ (if mid == k then false else f k)
    once r f deleted own = ground arith

-- The table whose first deadline, that of `mid`, has been taken off, and whose row of `mid` is `e`.
unfoldable pub rescheduled :
    RequestTable → ℕ → List (ℕ × ℕ) → Entry → (charging retired_count : ℕ) → RequestTable
rescheduled t mid rest e charging retired_count = record t {
  entries = insert mid e t.entries;
  expiry = schedule (expires_at e) mid rest;
  charging = charging;
  retired_count = retired_count;
}

pub rescheduled-IsValid :
    (t : RequestTable) (at mid : ℕ) (rest : List (ℕ × ℕ)) (e : Entry) (c r : ℕ)
    → IsValid t
    → t.expiry ≡ (at, mid) ∷ rest
    → mid ≤ last_mid
    → c + weight charge (lookup mid t.entries) ≡ t.charging + charge e
    → r + weight memory (lookup mid t.entries) ≡ t.retired_count + memory e
    → IsValid (rescheduled t mid rest e c r)
unfolding rescheduled
rescheduled-IsValid t at mid rest e c r v q m hc hr =
    let once = due_once t at mid rest v q in
    record {
      unique = insert-HasUniqueKeys mid e t.entries v.unique;
      issued = λ k h. ground (arith, lookup-insert mid k e t.entries, v.issued k);
      cursor_issued = v.cursor_issued;
      ordered =
          schedule-IsOrdered _ mid rest (rest-IsOrdered at mid rest (subst IsOrdered q v.ordered));
      scheduled = λ b k. ground (
        arith,
        has-schedule b mid (expires_at e) k rest,
        once b mid,
        once b k,
        lookup-insert mid k e t.entries,
        v.scheduled b k,
      );
      charged = omega (arith, total-insert charge mid e t.entries, v.charged);
      remembered = omega (arith, total-insert memory mid e t.entries, v.remembered);
    }
