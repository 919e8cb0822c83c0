-- ===== src/Connection/Table/Rows.antt =====
-- Changing one row of a valid table, its deadline and the counters with it, keeps it valid.
use smb1client_rs.Base.{ℕ, ◌+◌, ◌≤◌, ◌≡◌, none, arith}
use smb1client_rs.Base.Dict.{
  lookup, insert, remove, weight, lookup-insert, lookup-remove, insert-HasUniqueKeys,
  remove-HasUniqueKeys, total-insert, total-remove,
}
use smb1client_rs.Connection.Entry.{Entry, expires_at}
use smb1client_rs.Connection.Table.{RequestTable, last_mid}
use smb1client_rs.Connection.Table.Valid.{
  IsValid, charge, memory, deadline, moved, has-moved, moved-IsOrdered,
}

-- The table with the row of `mid` set to `e`.
unfoldable pub with_row : RequestTable → ℕ → Entry → (charging retired_count : ℕ) → RequestTable
with_row t mid e charging retired_count = record t {
  entries = insert mid e t.entries;
  expiry = moved (deadline (lookup mid t.entries)) (expires_at e) mid t.expiry;
  charging = charging;
  retired_count = retired_count;
}

pub with_row-IsValid :
    (t : RequestTable) (mid : ℕ) (e : Entry) (c r : ℕ)
    → IsValid t
    → mid ≤ last_mid
    → c + weight charge (lookup mid t.entries) ≡ t.charging + charge e
    → r + weight memory (lookup mid t.entries) ≡ t.retired_count + memory e
    → IsValid (with_row t mid e c r)
unfolding with_row
with_row-IsValid t mid e c r v m hc hr = record {
  unique = insert-HasUniqueKeys mid e t.entries v.unique;
  issued = λ k h. ground (arith, lookup-insert mid k e t.entries, v.issued k);
  cursor_issued = v.cursor_issued;
  ordered = moved-IsOrdered _ _ mid t.expiry v.ordered;
  scheduled = λ at k. ground (
    arith,
    has-moved at mid (deadline (lookup mid t.entries)) (expires_at e) k t.expiry v.ordered
        (λ b. v.scheduled b mid),
    lookup-insert mid k e t.entries,
    v.scheduled at k,
  );
  charged = omega (arith, total-insert charge mid e t.entries, v.charged);
  remembered = omega (arith, total-insert memory mid e t.entries, v.remembered);
}

-- The table without the row of `mid`.
unfoldable pub without_row : RequestTable → ℕ → (charging : ℕ) → RequestTable
without_row t mid charging = record t {
  entries = remove mid t.entries;
  expiry = moved (deadline (lookup mid t.entries)) none mid t.expiry;
  charging = charging;
}

pub without_row-IsValid :
    (t : RequestTable) (mid c : ℕ)
    → IsValid t
    → c + weight charge (lookup mid t.entries) ≡ t.charging
    → weight memory (lookup mid t.entries) ≡ 0
    → IsValid (without_row t mid c)
unfolding without_row
without_row-IsValid t mid c v hc hr = record {
  unique = remove-HasUniqueKeys mid t.entries v.unique;
  issued = λ k h. ground (arith, lookup-remove mid k t.entries v.unique, v.issued k);
  cursor_issued = v.cursor_issued;
  ordered = moved-IsOrdered _ _ mid t.expiry v.ordered;
  scheduled = λ at k. ground (
    arith,
    has-moved at mid (deadline (lookup mid t.entries)) none k t.expiry v.ordered
        (λ b. v.scheduled b mid),
    lookup-remove mid k t.entries v.unique,
    v.scheduled at k,
  );
  charged = omega (arith, total-remove charge mid t.entries, v.charged);
  remembered = omega (arith, total-remove memory mid t.entries, v.remembered);
}
